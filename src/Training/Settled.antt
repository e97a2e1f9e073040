-- ===== src/Training/Settled.antt =====
-- What `set_mode` leaves where it answers and where it raises, and what it answers when it is asked again.
use mathlib.Core.Path.{subst}
use go7_spark_broker.Prelude.{
  ◌≡◌, refl, sym, ap, ◌∙◌, ◌⊎◌, inl, inr, true, Option, none, some, arith, Result, ok, err,
  Option-cases, eq_iff,
}
use go7_spark_broker.Prelude.Exec.{pure, lift, gets, ◌>>>=◌}
use go7_spark_broker.Prelude.Outcomes.{
  Outcome, Gives, Gives-Keeps, Gives-weaken, Gives-before, Gives-if, Gives-bind, Gives-lifted,
}
use go7_spark_broker.Resources.Types.{Checkpoint}
use go7_spark_broker.Json.{Json}
use go7_spark_broker.Training.Types.{
  Failure, Policy, ModeRequest, Call, by_mode, same_request, Receipt, Baseline, Public, Ready,
  Applying, AuthorityFile, absent, unreadable, foreign, ready, applying,
}
use go7_spark_broker.Training.Requests.{read_mode_request}
use go7_spark_broker.Training.Mode.{
  Machine, Controller, Written, written, kept, torn, replaced, write_authority, write_state,
}
use go7_spark_broker.Training.Control.{
  check_fence, complete_set_mode, recover_if_needed, answer_again, change_mode, set_mode_from,
  set_mode, public_from, is_mode_again, is_mode_again,
}
use go7_spark_broker.Training.Kept.{Holds, apply-Kept, release_baseline-Kept}
use go7_spark_broker.Training.Since.{call_cases}
use go7_spark_broker.Training.Recovered.{Is, Finishes, Read, recover_if_needed-Read}
use go7_spark_broker.Training.Control.{
  public_of_mode, done_mode, flat, public_from, response_to_mode,
}

-- The request that the authority is about.
abbrev pub call_in : AuthorityFile → Option Call
call_in absent = none
call_in unreadable = none
call_in foreign = none
call_in (ready a) = some a.call
call_in (applying a) = some a.call

same_request_self : (r : ModeRequest) → same_request r r ≡ true
same_request_self r = ground (
  arith,
  eq_iff r.mutation_id r.mutation_id,
  eq_iff r.lease_id r.lease_id,
  eq_iff r.fencing_token r.fencing_token,
  eq_iff r.target_mode r.target_mode,
  eq_iff r.reason r.reason,
)

-- The change is recorded with its answer, and the state that was published is the recorded one.
pub record IsSettled {W : Type 0} (r : ModeRequest) (answer : Json) (c : Controller W)
    : Type 0 where
  pub done : Ready
  pub recorded : c.authority ≡ ready done
  pub same : is_mode_again r done.call ≡ true
  pub answered : done.response ≡ answer
  pub shown : (q : Public) × (done.public ≡ some q) × (c.state_file ≡ some q)

module _ (m : Machine) where
  open m use {World}

  -- Where a write returns, it was made.
  write_authority_gives :
      (a : AuthorityFile) {P : Controller World → Type 0} {R : Failure → Controller World → Type 0}
      → ((c : Controller World) (w : World) → P c → (e : Failure) → R e (record c { world = w }))
      → ((c : Controller World) (w : World)
          → P c
          → (e : Failure) → R e (record c { world = w; authority = a }))
      → Gives P (write_authority m a) (λ _ c. c.authority ≡ a) R
  unfolding write_authority
  write_authority_gives a {P} {R} before after = record {
    at = λ c h. go (m.write_authority c.world).0 c (m.write_authority c.world).1 h;
  }
    where
      go :
          (r : Written) (c : Controller World) (w : World)
          → P c
          → Outcome
              (λ _ c. c.authority ≡ a)
              R
              (replaced m r (λ d. record d { authority = a }) (record c { world = w })).0
              (replaced m r (λ d. record d { authority = a }) (record c { world = w })).1
      go written c w h = refl
      go (kept e) c w h = before c w h e
      go (torn e) c w h = after c w h e

  write_state_gives :
      (q : Public) (f : AuthorityFile)
      → Gives
          (λ c. c.authority ≡ f)
          (write_state m q)
          (λ _ c. (c.authority ≡ f) × (c.state_file ≡ some q))
          (λ _ c. c.authority ≡ f)
  unfolding write_state
  write_state_gives q f = record {
    at = λ c h. go (m.write_state c.world).0 c (m.write_state c.world).1 h;
  }
    where
      go :
          (r : Written) (c : Controller World) (w : World)
          → c.authority ≡ f
          → Outcome
              (λ _ c. (c.authority ≡ f) × (c.state_file ≡ some q))
              (λ _ c. c.authority ≡ f)
              (replaced m r (λ d. record d { state_file = some q }) (record c { world = w })).0
              (replaced m r (λ d. record d { state_file = some q }) (record c { world = w })).1
      go written c w h = (h, refl)
      go (kept e) c w h = h
      go (torn e) c w h = h

module _ (m : Machine) (p : Policy) (k : Option Call) where
  open m use {World}

  abbrev Calls : AuthorityFile → Type 0
  Calls f = call_in f ≡ k

  -- A completion of the recorded request, or of `r` over it.
  abbrev Ends : ModeRequest → Failure → Controller World → Type 0
  Ends r _ c = (call_in c.authority ≡ k) ⊎ (call_in c.authority ≡ some (by_mode r))

  settled :
      (r : ModeRequest) (x : Option Checkpoint × Option Receipt)
      {R : Failure → Controller World → Type 0}
      → Gives
          (λ c.
            (c.authority ≡ ready (done_mode p r x))
            × (c.state_file ≡ some (public_of_mode p r x.0)))
          (pure (response_to_mode r x.0))
          (IsSettled r)
          R
  unfolding pure
  settled r x = record {
    at = λ c h. record {
      done = done_mode p r x;
      recorded = h.0;
      same = same_request_self r;
      answered = refl;
      shown = (public_of_mode p r x.0, refl, h.1);
    };
  }

  complete_gives :
      (r : ModeRequest) (previous : Option Ready) (b : Option Baseline)
      → Gives
          (λ c. call_in c.authority ≡ some (by_mode r))
          (complete_set_mode m p r previous b)
          (IsSettled r)
          (Ends r)
  unfolding complete_set_mode
  complete_gives r previous b =
      Gives-bind _ _
        (Gives-weaken
          (Gives-Keeps
            (apply-Kept m (λ f. call_in f ≡ some (by_mode r)) p r.target_mode previous b))
          (λ x c h. h) (λ e c h. inr h))
        (λ x.
          Gives-bind _ _
            (write_authority_gives m (ready (done_mode p r x)) (λ c w h e. inr h)
              (λ c w h e. inr refl))
            (λ _.
              Gives-bind _ _
                (Gives-weaken
                  (write_state_gives m (public_of_mode p r x.0) (ready (done_mode p r x)))
                  (λ u c h. h) (λ e c h. inr (ap call_in h)))
                (λ _. settled r x)))

  change_gives :
      (r : ModeRequest) (current : Option Ready)
      → Gives (Holds m Calls) (change_mode m p r current) (IsSettled r) (Ends r)
  unfolding change_mode
  change_gives r current =
      Gives-lifted (check_fence p r current) _
        (λ _ _.
          Gives-bind _ _
            (Gives-weaken (Gives-Keeps (release_baseline-Kept m Calls p r current)) (λ x c h. h)
              (λ e c h. inl h))
            (λ b.
              Gives-bind _ _
                (write_authority_gives m
                  (applying (record { call = by_mode r; previous = current; baseline = b }))
                  (λ c w h e. inl h) (λ c w h e. inr refl))
                (λ _. Gives-before (λ c h. ap call_in h) (complete_gives r current (flat b)))))
        (λ e c h. inl h)

  again_gives :
      (r : ModeRequest) (a : Ready)
      → is_mode_again r a.call ≡ true
      → some a.call ≡ k
      → Gives (λ c. c.authority ≡ ready a) (answer_again m p a) (IsSettled r) (Ends r)
  unfolding answer_again pure
  again_gives r a same recorded =
      Gives-lifted (public_from a) _
        (λ q e.
          Gives-bind _ _
            (Gives-weaken (write_state_gives m q (ready a)) (λ u c h. h)
              (λ x c h. inl (ap call_in h ∙ recorded)))
            (λ _. shown_again q (public_of a q e)))
        (λ x c h. inl (ap call_in h ∙ recorded))
    where
      public_of : (a : Ready) (q : Public) → public_from a ≡ ok q → a.public ≡ some q
      public_of a q e = elim (Option-cases a.public) [
        | inl z ↦ absurd (cc)
        | inr (q', z) ↦ z ∙ ap some (under q' (rw z at e))
      ]
        where
          under : (q' : Public) → ◌≡◌ {A = Result Failure Public} (ok q') (ok q) → q' ≡ q
          under q' e = cc

      shown_again :
          (q : Public)
          → a.public ≡ some q
          → Gives
              (λ c. (c.authority ≡ ready a) × (c.state_file ≡ some q))
              (pure a.response)
              (IsSettled r)
              (Ends r)
      shown_again q e = record {
        at = λ c h. record {
          done = a;
          recorded = h.0;
          same = same;
          answered = refl;
          shown = (q, e, h.1);
        };
      }

  ready_of : (f : AuthorityFile) (a : Ready) → Is (some a) f → f ≡ ready a
  ready_of absent a e = absurd (cc)
  ready_of unreadable a e = absurd (cc)
  ready_of foreign a e = absurd (cc)
  ready_of (applying b) a e = absurd (cc)
  ready_of (ready b) a e = ap ready (under b e)
    where
      under :
          (b : Ready) → ◌≡◌ {A = Result Failure (Option Ready)} (ok (some b)) (ok (some a)) → b ≡ a
      under b e = cc

  set_from_gives :
      (r : ModeRequest) (current : Option Ready)
      → Gives (Read m p Calls current) (set_mode_from m p r current) (IsSettled r) (Ends r)
  unfolding set_mode_from
  set_from_gives r none = Gives-before (λ c h. h.0) (change_gives r none)
  set_from_gives r (some a) = record {
    at = λ c h.
        let here : c.authority ≡ ready a = ready_of c.authority a h.1 in
        (Gives-if {P = λ d. (d.authority ≡ ready a) × Calls d.authority} (is_mode_again r a.call) _
            _ (λ e. Gives-before (λ d g. g.0) (again_gives r a e (sym (ap call_in here) ∙ h.0)))
            (λ _. Gives-before (λ d g. g.1) (change_gives r (some a)))).at
          c (here, h.0);
  }

  finishes : (a : Applying) → Calls (applying a) → Finishes m p Calls a.call
  finishes a h = elim (call_cases a.call) [
    | inl (r, e) ↦ rw e (λ x. rw e at h)
    | inr (r, e) ↦ rw e (λ x. rw e at h)
  ]

  pub set_mode_gives :
      (raw : Json) (r : ModeRequest)
      → read_mode_request p raw ≡ ok r
      → Gives (Holds m Calls) (set_mode m p raw) (IsSettled r) (Ends r)
  unfolding set_mode
  set_mode_gives raw r e =
      Gives-lifted (read_mode_request p raw) _
        (λ s g.
          subst
            (λ t.
              Gives (Holds m Calls) (recover_if_needed m p >>>= set_mode_from m p t) (IsSettled r)
                (Ends r))
            (same s (sym e ∙ g))
            (Gives-bind _ _
              (Gives-weaken (recover_if_needed-Read m p Calls finishes) (λ a c h. h)
                (λ x c h. inl h))
              (λ current. set_from_gives r current)))
        (λ x c h. inl h)
    where
      same : (s : ModeRequest) → ◌≡◌ {A = Result Failure ModeRequest} (ok r) (ok s) → r ≡ s
      same s q = cc

module _ (m : Machine) (p : Policy) where
  open m use {World}

  -- A change of mode that answers has recorded its request with the answer and published the recorded
  -- state. Where it raises, the authority is about the request that it was about before, or about this.
  pub set_mode-Outcome :
      (c : Controller World) (raw : Json) (r : ModeRequest)
      → read_mode_request p raw ≡ ok r
      → Outcome
          (IsSettled r)
          (λ _ d.
            (call_in d.authority ≡ call_in c.authority) ⊎ (call_in d.authority ≡ some (by_mode r)))
          (set_mode m p raw c).0
          (set_mode m p raw c).1
  set_mode-Outcome c raw r e = (set_mode_gives m p (call_in c.authority) raw r e).at c refl

  asked_again :
      (c : Controller World) (raw : Json) (r : ModeRequest) (a : Ready)
      → read_mode_request p raw ≡ ok r
      → c.authority ≡ ready a
      → is_mode_again r a.call ≡ true
      → set_mode m p raw c ≡ set_mode_from m p r (some a) c
  unfolding set_mode recover_if_needed ◌>>>=◌ lift gets
  asked_again c raw r a e f again = rw (e, set_mode) (rw (f, recover_if_needed) refl)

  replays :
      (r : ModeRequest) (a : Ready) (q : Public) (answer : Json) (c : Controller World)
      → is_mode_again r a.call ≡ true
      → a.public ≡ some q
      → a.response ≡ answer
      → set_mode_from m p r (some a) c ≡ (write_state m q >>>= λ _. pure answer) c
  unfolding set_mode_from answer_again ◌>>>=◌ lift
  replays r a q answer c again known e = rw again (rw known (rw (sym e) refl))

  answered_again :
      (c : Controller World) (raw : Json) (r : ModeRequest) (answer : Json)
      → read_mode_request p raw ≡ ok r
      → IsSettled r answer c
      → (q : Public) × (c.state_file ≡ some q)
        × (set_mode m p raw c ≡ (write_state m q >>>= λ _. pure answer) c)
  answered_again c raw r answer e h =
      let (q, known, shown) = h.shown in
      (
        q,
        shown,
        asked_again c raw r h.done e h.recorded h.same
            ∙ replays r h.done q answer c h.same known h.answered,
      )

  where_ok :
      (Q : Json → Controller World → Type 0) (R : Failure → Controller World → Type 0)
      (x : Result Failure Json) (c : Controller World) (a : Json)
      → Outcome Q R x c
      → x ≡ ok a
      → Q a c
  where_ok Q R (ok b) c a h e = subst (λ z. Q z c) (under b e) h
    where
      under : (b : Json) → ◌≡◌ {A = Result Failure Json} (ok b) (ok a) → b ≡ a
      under b e = cc
  where_ok Q R (err x) c a h e = absurd (cc)

  -- A change of mode that was answered and is asked for again does nothing but publish the state anew,
  -- and answers the same.
  pub set_mode-again :
      (c : Controller World) (raw : Json) (r : ModeRequest) (answer : Json)
      → read_mode_request p raw ≡ ok r
      → (set_mode m p raw c).0 ≡ ok answer
      → (q : Public) × ((set_mode m p raw c).1.state_file ≡ some q)
        × (set_mode m p raw (set_mode m p raw c).1
            ≡ (write_state m q >>>= λ _. pure answer) (set_mode m p raw c).1)
  set_mode-again c raw r answer e f =
      answered_again (set_mode m p raw c).1 raw r answer e
        (where_ok (IsSettled r) _ _ _ answer (set_mode-Outcome c raw r e) f)
