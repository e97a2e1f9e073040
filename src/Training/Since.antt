-- ===== src/Training/Since.antt =====
-- The epochs of the authority: requests of an older epoch than one that was recorded.
use go7_spark_broker.Prelude.{
  ℕ, ◌≡◌, ◌≤◌, ◌<◌, refl, sym, ap, ◌∙◌, ◌⊎◌, inl, inr, true, Option, none, some, List, [], ◌∷◌,
  arith, Result, ok, err, Option-cases,
}
use go7_spark_broker.Prelude.Exec.{◌>>>=◌, Keeps, Keeps-bind, Keeps-lifted, Keeps-if, keeps_rules}
use go7_spark_broker.Prelude.Outcomes.{
  Outcome, Gives, Gives-Keeps, Gives-weaken, Gives-if, Gives-bind, Gives-lifted, Keeps-Gives,
}
use go7_spark_broker.Json.{Json}
use go7_spark_broker.Training.Types.{
  Failure, Policy, ModeRequest, TakeoverRequest, Call, by_mode, by_takeover, Public, Ready,
  Applying, AuthorityFile, absent, unreadable, foreign, ready, applying,
}
use go7_spark_broker.Training.Requests.{read_mode_request}
use go7_spark_broker.Training.Mode.{Machine, Controller, M}
use go7_spark_broker.Training.Control.{
  check_fence, check_public, recover_if_needed, change_mode, set_mode_from, set_mode, displaces,
  public_from, is_mode_again, displace, takeover_from, takeover,
}
use go7_spark_broker.Training.Kept.{
  Keeps-must, write_authority_kept, release_baseline-Kept, answer_again-Kept,
}
use go7_spark_broker.Training.Recovered.{
  Is, Finishes, Read, Raises, complete_set_mode-Kept, complete_takeover-Kept,
  recover_if_needed-Read,
}

abbrev pub epoch_of : Call → ℕ
epoch_of (by_mode r) = r.broker_epoch
epoch_of (by_takeover r) = r.broker_epoch

-- The public state of a completed change names the epoch of its request.
abbrev pub Names : Option Public → ℕ → Type 0
Names none n = Unit
Names (some q) n = q.broker_epoch ≡ n

-- The authority is of the epoch `n` or a later one.
abbrev pub IsSince : ℕ → AuthorityFile → Type 0
IsSince n absent = n ≤ 0
IsSince n unreadable = Unit
IsSince n foreign = Unit
IsSince n (ready a) = (n ≤ epoch_of a.call) × Names a.public (epoch_of a.call)
IsSince n (applying a) = n ≤ epoch_of a.call

abbrev pub SinceReady : ℕ → Option Ready → Type 0
SinceReady n none = n ≤ 0
SinceReady n (some a) = IsSince n (ready a)

pub call_cases :
    (k : Call)
    → ((r : ModeRequest) × (k ≡ by_mode r)) ⊎ ((r : TakeoverRequest) × (k ≡ by_takeover r))
call_cases (by_mode r) = inl (r, refl)
call_cases (by_takeover r) = inr (r, refl)

module _ (m : Machine) (p : Policy) (n : ℕ) where
  open m use {World}

  abbrev Since : Controller World → Type 0
  Since c = IsSince n c.authority

  finishes : (a : Applying) → IsSince n (applying a) → Finishes m p (IsSince n) a.call
  finishes a h = elim (call_cases a.call) [
    | inl (r, e) ↦ rw e (λ x. (rw e at h, refl))
    | inr (r, e) ↦ rw e (λ x. (rw e at h, refl))
  ]

  recover_gives :
      Gives Since (recover_if_needed m p) (Read m p (IsSince n)) (Raises m p (IsSince n))
  recover_gives = recover_if_needed-Read m p (IsSince n) finishes

  since_of :
      (f : AuthorityFile) (current : Option Ready)
      → Is current f
      → IsSince n f
      → SinceReady n current
  since_of absent current e h = elim (Option-cases current) [
    | inl z ↦ rw z h
    | inr (a, z) ↦ absurd (cc)
  ]
  since_of unreadable current e h = absurd (cc)
  since_of foreign current e h = absurd (cc)
  since_of (applying a) current e h = absurd (cc)
  since_of (ready a) current e h = elim (Option-cases current) [
    | inl z ↦ absurd (cc)
    | inr (b, z) ↦ rw z (rw (same a b (e ∙ ap ok z)) at h)
  ]
    where
      same :
          (a b : Ready)
          → ◌≡◌ {A = Result Failure (Option Ready)} (ok (some a)) (ok (some b))
          → a ≡ b
      same a b e = cc

  fence_since :
      (r : ModeRequest) (current : Option Ready) (u : Unit {0})
      → check_fence p r current ≡ ok u
      → SinceReady n current
      → n ≤ r.broker_epoch
  unfolding check_fence
  fence_since r none u e h = omega (arith, h)
  fence_since r (some a) u e h = elim (Option-cases a.public) [
    | inl z ↦ absurd (cc)
    | inr (q, z) ↦ fits q (rw z at e) (h.0, rw z at h.1)
  ]
    where
      fits :
          (q : Public)
          → check_public p r (some q) ≡ ok u
          → (n ≤ epoch_of a.call) × (q.broker_epoch ≡ epoch_of a.call)
          → n ≤ r.broker_epoch
      fits q e h = ground (arith, e, h.0, h.1)

  change_kept :
      (r : ModeRequest) (current : Option Ready)
      → SinceReady n current
      → Keeps Since (change_mode m p r current)
  unfolding change_mode
  change_kept r current h = Keeps-lifted (check_fence p r current) _ (λ u e.
      let late : n ≤ r.broker_epoch = fence_since r current u e h in
      Keeps-bind _ _ (release_baseline-Kept m (IsSince n) p r current) (λ b.
        Keeps-bind _ _ (write_authority_kept m (IsSince n) _ late)
          (λ _. complete_set_mode-Kept m p (IsSince n) r current _ (λ x. (late, refl)))))

  set_from_kept :
      (r : ModeRequest) (current : Option Ready)
      → SinceReady n current
      → Keeps Since (set_mode_from m p r current)
  unfolding set_mode_from
  set_from_kept r none h = change_kept r none h
  set_from_kept r (some a) h =
      Keeps-if _ _ _ (answer_again-Kept m (IsSince n) p a) (change_kept r (some a) h)

  read_on :
      {A : Type 0} (f : Option Ready → M World A)
      → ((current : Option Ready) → SinceReady n current → Keeps Since (f current))
      → Keeps Since (recover_if_needed m p >>>= f)
  read_on f k = Keeps-Gives (
      Gives-bind _ _ (recover_gives) (λ current. record {
        at = λ c h. (Gives-Keeps (k current (since_of c.authority current h.1 h.0))).at c h.0;
      }))

  pub set_mode-Since : (raw : Json) → Keeps Since (set_mode m p raw)
  unfolding set_mode
  set_mode-Since raw =
      Keeps-bind _ _ (search keeps_rules) (λ r. read_on (set_mode_from m p r) (set_from_kept r))

  displaced_since :
      (r : TakeoverRequest) (a : Ready) (q : Public)
      → public_from a ≡ ok q
      → displaces r q ≡ true
      → SinceReady n (some a)
      → n ≤ r.broker_epoch
  displaced_since r a q e d h = elim (Option-cases a.public) [
    | inl z ↦ absurd (cc)
    | inr (q', z) ↦ after q' (rw z at e) (rw z at h.1)
  ]
    where
      after :
          (q' : Public)
          → ◌≡◌ {A = Result Failure Public} (ok q') (ok q)
          → q'.broker_epoch ≡ epoch_of a.call
          → n ≤ r.broker_epoch
      after q' e g = ground (arith, e, d, g, h.0)

  displace_kept :
      (r : TakeoverRequest) (a : Ready) → SinceReady n (some a) → Keeps Since (displace m p r a)
  unfolding displace
  displace_kept r a h = Keeps-lifted (public_from a) _ (λ q e.
      Keeps-must Since (displaces r q) _ _ _ (λ d.
        let late : n ≤ r.broker_epoch = displaced_since r a q e d h in
        Keeps-bind _ _ (write_authority_kept m (IsSince n) _ late)
          (λ _. complete_takeover-Kept m p (IsSince n) r a (λ x. (late, refl)))))

  takeover_from_kept :
      (r : TakeoverRequest) (current : Option Ready)
      → SinceReady n current
      → Keeps Since (takeover_from m p r current)
  unfolding takeover_from
  takeover_from_kept r none h = search keeps_rules
  takeover_from_kept r (some a) h =
      Keeps-if _ _ _ (answer_again-Kept m (IsSince n) p a) (displace_kept r a h)

  pub takeover-Since : (raw : Json) → Keeps Since (takeover m p raw)
  unfolding takeover
  takeover-Since raw = Keeps-bind _ _ (search keeps_rules) (λ r.
      Keeps-bind _ _ (search keeps_rules)
        (λ _. read_on (takeover_from m p r) (takeover_from_kept r)))

  pub recover-Since : Keeps Since (recover_if_needed m p)
  recover-Since = Keeps-Gives (Gives-weaken recover_gives (λ a c h. h.0) (λ e c h. h))

  again_since :
      (r : ModeRequest) (call : Call)
      → is_mode_again r call ≡ true
      → n ≤ epoch_of call
      → n ≤ r.broker_epoch
  again_since r (by_mode s) e h = ground (arith, e, h)
  again_since r (by_takeover s) e h = absurd (cc)

  abbrev Never : {A : Type 0} → A → Controller World → Type 0
  Never a c = ⊥

  change_stale :
      (r : ModeRequest) (current : Option Ready)
      → r.broker_epoch < n
      → SinceReady n current
      → Gives Since (change_mode m p r current) Never (λ _. Since)
  unfolding change_mode
  change_stale r current old h =
      Gives-lifted (check_fence p r current) _
        (λ u e.
          let late : n ≤ r.broker_epoch = fence_since r current u e h in
          absurd (omega (arith, old, late)))
        (λ e c s. s)

  set_from_stale :
      (r : ModeRequest) (current : Option Ready)
      → r.broker_epoch < n
      → SinceReady n current
      → Gives Since (set_mode_from m p r current) Never (λ _. Since)
  unfolding set_mode_from
  set_from_stale r none old h = change_stale r none old h
  set_from_stale r (some a) old h =
      Gives-if (is_mode_again r a.call) _ _
        (λ e.
          let late : n ≤ r.broker_epoch = again_since r a.call e h.0 in
          absurd (omega (arith, old, late)))
        (λ _. change_stale r (some a) old h)

  -- A request of an epoch below one that was recorded is never answered.
  pub set_mode-stale :
      (raw : Json)
      → ((r : ModeRequest) → read_mode_request p raw ≡ ok r → r.broker_epoch < n)
      → Gives Since (set_mode m p raw) Never (λ _. Since)
  unfolding set_mode
  set_mode-stale raw old =
      Gives-lifted (read_mode_request p raw) _
        (λ r e. Gives-bind _ _ recover_gives (λ current. record {
          at = λ c h.
              (set_from_stale r current (old r e) (since_of c.authority current h.1 h.0)).at c h.0;
        }))
        (λ e c s. s)

-- A sequence of calls, and restarts of the controller, which recover.
pub data Step : Type 0 where
  sets takes : Json → Step
  restarts : Step

module _ (m : Machine) (p : Policy) where
  open m use {World}

  abbrev pub perform : Step → Controller World → Controller World
  perform (sets raw) c = (set_mode m p raw c).1
  perform (takes raw) c = (takeover m p raw c).1
  perform restarts c = (recover_if_needed m p c).1

  abbrev pub perform_all : List Step → Controller World → Controller World
  perform_all [] c = c
  perform_all (s ∷ r) c = perform_all r (perform s c)

  perform-Since :
      (n : ℕ) (s : Step) (c : Controller World)
      → IsSince n c.authority
      → IsSince n (perform s c).authority
  perform-Since n (sets raw) c h = (set_mode-Since m p n raw).at c h
  perform-Since n (takes raw) c h = (takeover-Since m p n raw).at c h
  perform-Since n restarts c h = (recover-Since m p n).at c h

  refused_by :
      {A : Type 0} (P : Controller World → Type 0) (r : Result Failure A) (c : Controller World)
      → Outcome (λ _ _. ⊥) (λ _. P) r c
      → (e : Failure) × (r ≡ err e)
  refused_by P (ok a) c h = absurd h
  refused_by P (err e) c h = (e, refl)

  refuses :
      (n : ℕ) (r : ModeRequest) (raw : Json) (c : Controller World)
      → read_mode_request p raw ≡ ok r
      → r.broker_epoch < n
      → IsSince n c.authority
      → (e : Failure) × ((set_mode m p raw c).0 ≡ err e)
  refuses n r raw c e old h =
      refused_by (λ d. IsSince n d.authority) _ _
        ((set_mode-stale m p n raw (λ s g. rw (same s (sym e ∙ g)) at old)).at c h)
    where
      same : (s : ModeRequest) → ◌≡◌ {A = Result Failure ModeRequest} (ok r) (ok s) → r ≡ s
      same s q = cc

  -- Once the authority is of an epoch, or a later one, it stays so over every sequence of calls and
  -- restarts, whatever they raise, and a change of mode of an earlier epoch is not answered then.
  pub perform_all-Since :
      (n : ℕ) (l : List Step) (c : Controller World)
      → IsSince n c.authority
      → IsSince n (perform_all l c).authority
        × ((r : ModeRequest) (raw : Json)
            → read_mode_request p raw ≡ ok r
            → r.broker_epoch < n
            → (e : Failure) × ((set_mode m p raw (perform_all l c)).0 ≡ err e))
  perform_all-Since n [] c h = (h, λ r raw e old. refuses n r raw c e old h)
  perform_all-Since n (s ∷ r) c h = perform_all-Since n r (perform s c) (perform-Since n s c h)
