-- ===== src/UseCases/Pipeline/Similarity.antt =====
-- crates/core/src/use_cases/llm_pipeline/validation.rs: the edit distance behind the similarity.
use video_captioner_r.UseCases.Pipeline.Checks.{
  next_row, next_table, rows, count_from, last_or, edit_distance,
}
use video_captioner_r.Prelude.Texts.{Text}
use video_captioner_r.Prelude.{
  ◌∙◌, ap, if◌then◌else◌, min, refl, suc, ◌+◌, ◌==◌, ◌∷◌, ◌≡◌, List, ℕ, [], length,
}

-- The distance of two texts by its recursion, from their first characters on: a character is kept,
-- replaced, removed or inserted.
unfoldable pub distance : Text → Text → ℕ
distance [] ys = length ys
distance (x ∷ xs) [] = suc (length xs)
distance (x ∷ xs) (y ∷ ys) =
    let same = distance xs ys in
    let removed = distance xs (y ∷ ys) in
    let inserted = distance (x ∷ xs) ys in
    if x == y then same else 1 + min (min same removed) inserted

-- The text turned round, in front of another.
abbrev pub turned : Text → Text → Text
turned [] ys = ys
turned (x ∷ xs) ys = turned xs (x ∷ ys)

-- The row of the table for `p`, a prefix that is turned round, from `q` on.
row : Text → Text → Text → List ℕ
unfolding distance
row p q [] = distance p q ∷ []
row p q (d ∷ ds) = distance p q ∷ row p (d ∷ q) ds

first_row : (q right : Text) → count_from (length q) (suc (length right)) ≡ row [] q right
unfolding row distance
first_row q [] = refl
first_row q (d ∷ ds) = ap (◌∷◌ (length q)) (first_row (d ∷ q) ds)

row_behind : Text → Text → Text → List ℕ
row_behind p q [] = []
row_behind p q (d ∷ ds) = row p (d ∷ q) ds

next_row-row :
    (c : ℕ) (p q right : Text)
    → next_row c right (distance p q) (distance (c ∷ p) q) (row_behind p q right)
      ≡ row_behind (c ∷ p) q right
unfolding next_row row row_behind distance
next_row-row c p q [] = refl
next_row-row c p q (d ∷ []) = refl
next_row-row c p q (d ∷ e ∷ ds) =
    ap (◌∷◌ (distance (c ∷ p) (d ∷ q))) (next_row-row c p (d ∷ q) (e ∷ ds))

table_row :
    (c : ℕ) (p right : Text) → next_table c right (length p) (row p [] right) ≡ row (c ∷ p) [] right
unfolding next_table row row_behind distance
table_row c p [] = refl
table_row c p (d ∷ ds) = ap (◌∷◌ (suc (length p))) (next_row-row c p [] (d ∷ ds))

rows-row :
    (left p right : Text)
    → rows (length p) left right (row p [] right) ≡ row (turned left p) [] right
unfolding rows
rows-row [] p right = refl
rows-row (c ∷ left) p right =
    ap (rows (suc (length p)) left right) (table_row c p right) ∙ rows-row left (c ∷ p) right

last_of_row : (x : ℕ) (p q ds : Text) → last_or x (row p q ds) ≡ distance p (turned ds q)
unfolding row
last_of_row x p q [] = refl
last_of_row x p q (d ∷ ds) = last_of_row (distance p q) p (d ∷ q) ds

-- The edit distance that the table of rows gives is the one of the recursion on the two texts
-- turned round, where a character is kept, replaced, removed or inserted.
pub edit_distance-distance :
    (left right : Text) → edit_distance left right ≡ distance (turned left []) (turned right [])
unfolding edit_distance
edit_distance-distance left right =
    ap (λ o. last_or 0 (rows 0 left right o)) (first_row [] right)
    ∙ ap (last_or 0) (rows-row left [] right)
    ∙ last_of_row 0 (turned left []) [] right
