-- ===== src/Worker/Exchange.antt =====
-- crates/asr/src/worker/protocol_session.rs: the messages that a session accepts for one request.
use video_captioner_r.Worker.{typed, pong, is_terminal, hello_ok, Envelope, MessageType}
use video_captioner_r.Worker.Session.{
  begin_request, refused, accepted, accept_envelope, Answer, WorkerProtocolSession,
}
use video_captioner_r.Worker.History.{
  Event, begin, finish, message, line, run, step, accept_line_cases, answers,
}
use video_captioner_r.Worker.Typed.{heard_other, heard, belongs_of_terminal}
use video_captioner_r.Worker.Rules.{turn_of, MayUse, Fits, Allows, turn}
use video_captioner_r.Worker.Refinement.{counted, accept_envelope-heard}
use video_captioner_r.Worker.Refusals.{accept_envelope-Refuses}
use video_captioner_r.Prelude.{
  all-append, String, ◌++◌, ◌≤◌, ◌⊎◌, ap, ◌∙◌, Bool-cases, Option, arith, eq→==, inl, inr, refl,
  ◌&&◌, Bool, List, [], all, false, if◌then◌else◌, none, some, true, ℕ, ◌+◌, ◌==◌, ◌||◌, ◌∷◌, ◌≡◌,
}

abbrev is_control : MessageType → Bool
is_control hello_ok = true
is_control pong = true
is_control _ = false

abbrev has_id : ℕ → Option ℕ → Bool
has_id id none = true
has_id id (some used) = id == used

abbrev as_count : Bool → ℕ
as_count done = if done then 1 else 0

Fits-counts :
    (t : MessageType) (request : Option ℕ) (id : ℕ) (done : Bool)
    → Fits (turn_of (some id) done) t request
    → (has_id id request ≡ true)
      × (as_count (is_terminal t) + as_count done ≡ as_count ((is_terminal t && true) || done))
unfolding Fits turn_of MayUse
Fits-counts t none id done h = elim (Bool-cases (is_terminal t)) [
  | inl e ↦ absurd (belongs_of_terminal t e h)
  | inr e ↦ rw e (ground arith)
]
Fits-counts t (some used) id false (positive, same) = (eq→== id used same, ground arith)
Fits-counts t (some used) id true (positive, ended) = absurd ended

module _ {Json : Type 0} where
  -- Messages and lines from the worker, and no call that changes the request.
  abbrev is_inbound : Event Json → Bool
  is_inbound (message m) = true
  is_inbound (line l) = true
  is_inbound _ = false

  -- A message of a type that carries the answer of a request.
  abbrev ends_request : Envelope Json → Bool
  ends_request m = elim (typed m) [ none ↦ false | some t ↦ is_terminal t ]

  abbrev pub count_terminals : List (Envelope Json) → ℕ
  count_terminals [] = 0
  count_terminals (m ∷ ms) = as_count (ends_request m) + count_terminals ms

  -- `hello_ok` and `pong` are of the session; any other message has this id, or none.
  abbrev pub owned : ℕ → Envelope Json → Bool
  owned id m = elim (typed m) [ none ↦ false | some t ↦ is_control t || has_id id m.request_id ]

  -- What one call adds to an exchange.
  record Adds (id : ℕ) (s : WorkerProtocolSession) (new_ones : List (Envelope Json))
      (s' : WorkerProtocolSession) : Type 0 where
    active : s'.active_request_id ≡ some id
    counted_ends :
        count_terminals new_ones + as_count s.active_request_terminal
        ≡ as_count s'.active_request_terminal
    all_owned : all (owned id) new_ones ≡ true

  Fits-other :
      (t : MessageType) (id : ℕ) (s : WorkerProtocolSession) (m : Envelope Json)
      → s.active_request_id ≡ some id
      → typed m ≡ some t
      → Fits (turn s) t m.request_id
      → (owned id m ≡ true)
        × (as_count (ends_request m) + as_count s.active_request_terminal
            ≡ as_count (heard_other t s).active_request_terminal)
  unfolding turn
  Fits-other t id s m a k fit =
      let (same, count) = Fits-counts t m.request_id id s.active_request_terminal (rw a at fit) in
      rw (k, a, owned, ends_request) (ground (arith, same, count))

  allowed_counts :
      (t : MessageType) (id : ℕ) (s : WorkerProtocolSession) (m : Envelope Json)
      → s.active_request_id ≡ some id
      → typed m ≡ some t
      → Allows s.session_id (turn s) t m
      → (owned id m ≡ true)
        × (as_count (ends_request m) + as_count s.active_request_terminal
            ≡ as_count (heard t m s).active_request_terminal)
  unfolding Allows
  allowed_counts hello_ok id s m a k allowed = rw (k, owned, ends_request) (refl, omega arith)
  allowed_counts pong id s m a k allowed = rw (k, owned, ends_request) (refl, omega arith)
  allowed_counts t id s m a k allowed = Fits-other t id s m a k allowed.1

  active-heard :
      (t : MessageType) (m : Envelope Json) (s : WorkerProtocolSession)
      → ((heard t m (counted s)).active_request_id ≡ s.active_request_id)
        × ((heard t m (counted s)).active_request_terminal ≡ (heard t m s).active_request_terminal)
  active-heard hello_ok m s = (refl, refl)
  active-heard pong m s = (refl, refl)
  active-heard t m s = (refl, refl)

  answered :
      (id : ℕ) (s : WorkerProtocolSession) (m : Envelope Json)
      (r : WorkerProtocolSession × Answer (Envelope Json))
      → accept_envelope s m ≡ r
      → s.active_request_id ≡ some id
      → Adds id s (answers r.1) r.0
  answered id s m (s', refused why) h a =
      let left = accept_envelope-Refuses s s' m why h in
      record {
        active = left.request_stays ∙ a;
        counted_ends = rw left.flag_stays (omega arith);
        all_owned = refl;
      }
  answered id s m (s', accepted answer) h a =
      let (t, k, same, next, is_next, allowed) = accept_envelope-heard s s' m answer h in
      let (own, count) = allowed_counts t id s m a k allowed in
      let kept = active-heard t m s in
      record {
        active = ap (λ (u : WorkerProtocolSession). u.active_request_id) next ∙ (kept.0 ∙ a);
        counted_ends = rw same (
            omega (
              arith,
              count,
              ap (λ (u : WorkerProtocolSession). as_count u.active_request_terminal) next,
              ap as_count kept.1,
            ));
        all_owned = rw (same, own) refl;
      }

  accept_envelope-Adds :
      (id : ℕ) (s : WorkerProtocolSession) (m : Envelope Json)
      → s.active_request_id ≡ some id
      → let r = accept_envelope s m in Adds id s (answers r.1) r.0
  accept_envelope-Adds id s m a = answered id s m (accept_envelope s m) refl a

  count-append :
      (first later : List (Envelope Json))
      → count_terminals (first ++ later) ≡ count_terminals first + count_terminals later
  count-append [] later = omega arith
  count-append (m ∷ first) later = omega (arith, count-append first later)

  Adds-append :
      (id : ℕ) (s s' s'' : WorkerProtocolSession) (first later : List (Envelope Json))
      → Adds id s first s'
      → Adds id s' later s''
      → Adds id s (first ++ later) s''
  Adds-append id s s' s'' first later a b = record {
    active = b.active;
    counted_ends = omega (arith, a.counted_ends, b.counted_ends, count-append first later);
    all_owned = all-append (owned id) first later a.all_owned b.all_owned;
  }

  module _ (from_ndjson_line : String → String ⊎ Envelope Json) where
    step-Adds :
        (id : ℕ) (s : WorkerProtocolSession) (e : Event Json)
        → s.active_request_id ≡ some id
        → is_inbound e ≡ true
        → let r = step from_ndjson_line s e in Adds id s r.1 r.0
    unfolding step
    step-Adds id s (begin used) a inbound = absurd (cc)
    step-Adds id s finish a inbound = absurd (cc)
    step-Adds id s (message m) a inbound = accept_envelope-Adds id s m a
    step-Adds id s (line l) a inbound = elim (accept_line_cases from_ndjson_line s l) [
      | inl (why, e) ↦ rw e (record { active = a; counted_ends = omega arith; all_owned = refl })
      | inr (m, e) ↦ rw e (accept_envelope-Adds id s m a)
    ]

    run-Adds :
        (id : ℕ) (s : WorkerProtocolSession) (es : List (Event Json))
        → s.active_request_id ≡ some id
        → all is_inbound es ≡ true
        → let r = run from_ndjson_line s es in Adds id s r.1 r.0
    unfolding run
    run-Adds id s [] a inbound = record { active = a; counted_ends = omega arith; all_owned = refl }
    run-Adds id s (e ∷ es) a inbound =
        let r = step from_ndjson_line s e in
        let one = step-Adds id s e a (ground arith) in
        Adds-append id s r.0 (run from_ndjson_line r.0 es).0 r.1 (run from_ndjson_line r.0 es).1 one
          (run-Adds id r.0 es one.active (ground arith))

    -- Behind an accepted begin of a request, until the next call that begins or ends one, at
    -- most one terminal message is accepted, and no message with the id of another request but
    -- the types hello_ok and pong.
    pub one_answer :
        (id : ℕ) (s s' : WorkerProtocolSession) (es : List (Event Json))
        → begin_request id s ≡ (s', accepted tt)
        → all is_inbound es ≡ true
        → (count_terminals (run from_ndjson_line s' es).1 ≤ 1)
          × (all (owned id) (run from_ndjson_line s' es).1 ≡ true)
    unfolding begin_request
    one_answer id s s' es h inbound =
        let r = run-Adds id s' es (ground arith) inbound in
        (ground (arith, r.counted_ends), r.all_owned)
