-- ===== src/Training/Seen.antt =====
-- A release of the training: what has been seen of the unit and of the files.
use go7_spark_broker.Prelude.{
  ℕ, ◌≡◌, ◌≢◌, refl, ap, ◌∙◌, String, Bool, true, false, ◌&&◌, Option, none, some, List, [], ◌∷◌,
  arith, All, sort_by-All, sort_by-IsOrdered, IsOrdered, IsStrictOrder, str_lt-asym, str_lt-through,
  sym, Result, ok, err, eqb, eq_iff, ◌==◌,
}
use go7_spark_broker.Prelude.Exec.{pure, raise}
use go7_spark_broker.Prelude.Outcomes.{Outcome, Gives, Gives-weaken, Gives-bind, Gives-known}
use go7_spark_broker.Training.Types.{Failure, Policy, FileRecord, Receipt, Baseline}
use go7_spark_broker.Training.Receipt.{path_before, receipt_content_digest}
use go7_spark_broker.Training.Mode.{
  Machine, Controller, outside, active, load_receipt, check_file, check_files, certified,
  checkpoint, is_advanced, must,
}

-- A world like `v`, in which the unit is down and every file reads as it did.
pub record Leaves (m : Machine) (Down : Machine.World m → Type 0) (v w : Machine.World m)
    : Type 0 where
  pub down : Down w
  pub reads : (path : String) → (m.observe path w).0 ≡ (m.observe path v).0

-- `Down` holds of a world in which the unit has been seen not to be active. From there on, to read files
-- and to write the two files of the controller keeps it and the files of the checkpoint. Of a world in
-- which the unit may run nothing is said.
pub record IsStill (m : Machine) (unit : String) (Down : Machine.World m → Type 0) : Type 0 where
  pub seen : (w : Machine.World m) → (m.active unit w).0 ≡ ok false → Down (m.active unit w).1
  pub receipt : (w : Machine.World m) → Down w → Leaves m Down w (m.receipt w).1
  pub observe :
      (path : String) (w : Machine.World m) → Down w → Leaves m Down w (m.observe path w).1
  pub write_authority : (w : Machine.World m) → Down w → Leaves m Down w (m.write_authority w).1
  pub write_state : (w : Machine.World m) → Down w → Leaves m Down w (m.write_state w).1

by_path : IsStrictOrder path_before
by_path = record {
  asym = λ a b. str_lt-asym a.path b.path;
  through = λ a b c. str_lt-through a.path b.path c.path;
}

abbrev pub Any : {S : Type 0} → Failure → S → Type 0
Any _ _ = Unit {0}

pub must_gives :
    {W : Type 0} (P : Controller W → Type 0) (b : Bool) (code : String) (status : ℕ)
    → Gives P (must b code status) (λ _ d. (b ≡ true) × P d) Any
unfolding pure raise
must_gives P true code status = record { at = λ c h. (refl, h) }
must_gives P false code status = record { at = λ c h. tt }

module _ (m : Machine) (p : Policy) (Down : Machine.World m → Type 0)
    (still : IsStill m p.unit Down) where
  open m use {World}

  -- The checkpoint is a new one of the run that the receipt was about before.
  abbrev pub Advances : Option Baseline → Receipt → Type 0
  Advances none e = Unit {0}
  Advances (some b) e =
      (e.run_id ≡ b.run_id)
      × (e.checkpoint_id ≢ b.checkpoint_id)
      × (receipt_content_digest m.digest e ≢ b.content_sha256)

  pub advances :
      (b : Option Baseline) (e : Receipt) → is_advanced m b (certified m e) ≡ true → Advances b e
  advances none e h = tt
  advances (some b) e h = (
    ground (arith, h, eq_iff e.run_id b.run_id),
    (λ q. ground (arith, h, q, eq_iff e.checkpoint_id b.checkpoint_id)),
    (λ q. ground (arith, h, q, eq_iff (receipt_content_digest m.digest e) b.content_sha256)),
  )

  pub active_gives : Gives (λ _. Unit {0}) (active m p.unit) (λ b d. b ≡ false → Down d.world) Any
  unfolding active
  active_gives = record {
    at = λ c h. go (m.active p.unit c.world).0 (m.active p.unit c.world).1 c (still.seen c.world);
  }
    where
      go :
          (r : Result Failure Bool) (w : World) (c : Controller World)
          → (r ≡ ok false → Down w)
          → Outcome (λ b d. b ≡ false → Down d.world) Any r (record c { world = w })
      go (ok b) w c k = λ q. k (ap ok q)
      go (err e) w c k = tt

  -- `look` is what the files hold while the unit is down.
  module _ (look : String → Result Failure (ℕ × String)) where
    abbrev pub IsSeen : FileRecord → Type 0
    IsSeen f = look f.path ≡ ok (f.size, f.sha256)

    -- The unit is down and the files hold that.
    pub record AtRest (w : World) : Type 0 where
      pub down : Down w
      pub holds : (path : String) → (m.observe path w).0 ≡ look path

    abbrev pub Quiet : Controller World → Type 0
    Quiet c = AtRest c.world

    pub moved : (v w : World) → Leaves m Down v w → AtRest v → AtRest w
    moved v w l h = record { down = l.down; holds = λ path. l.reads path ∙ h.holds path }

    spread :
        {A : Type 0} (Q : A → Type 0) (r : Result Failure A) (w : World) (c : Controller World)
        → ((a : A) → r ≡ ok a → Q a)
        → AtRest w
        → Outcome (λ a d. Q a × Quiet d) Any r (record c { world = w })
    spread Q (ok a) w c k h = (k a refl, h)
    spread Q (err e) w c k h = tt

    observe_gives :
        (path : String)
        → Gives Quiet (outside m (m.observe path)) (λ x d. (look path ≡ ok x) × Quiet d) Any
    observe_gives path = record {
      at = λ c h.
          spread (λ x. look path ≡ ok x) (m.observe path c.world).0 (m.observe path c.world).1 c
            (λ a e. sym (h.holds path) ∙ e) (moved c.world _ (still.observe path c.world h.down) h);
    }

    same_record :
        (f : FileRecord) (x : ℕ × String)
        → look f.path ≡ ok x
        → (eqb x.0 f.size && x.1 == f.sha256) ≡ true
        → IsSeen f
    same_record f (size, sha256) e b =
        let s : size ≡ f.size = ground (arith, b) in
        let t : sha256 ≡ f.sha256 = ground (arith, b, eq_iff sha256 f.sha256) in
        rw (sym s) (rw (sym t) e)

    file_gives : (f : FileRecord) → Gives Quiet (check_file m f) (λ _ d. IsSeen f × Quiet d) Any
    unfolding check_file
    file_gives f = Gives-bind _ _ (observe_gives f.path) (λ x. Gives-known (λ e.
        Gives-weaken (must_gives Quiet (eqb x.0 f.size && x.1 == f.sha256) "checkpoint_changed" 503)
          (λ _ d h. (same_record f x e h.0, h.1)) (λ _ _ h. h)))

    files_give :
        (l : List FileRecord) → Gives Quiet (check_files m l) (λ _ d. All IsSeen l × Quiet d) Any
    unfolding check_files pure
    files_give [] = record { at = λ c h. (tt, h) }
    files_give (f ∷ r) = Gives-bind _ _ (file_gives f) (λ _.
        Gives-known (λ e. Gives-weaken (files_give r) (λ _ d h. ((e, h.0), h.1)) (λ _ _ h. h)))

    receipt_gives : Gives Quiet (load_receipt m) (λ _. Quiet) Any
    unfolding load_receipt
    receipt_gives = record {
      at = λ c h. go _ c _ (moved c.world _ (still.receipt c.world h.down) h);
    }
      where
        go :
            (r : Result Failure Receipt) (c : Controller World) (w : World)
            → AtRest w
            → Outcome (λ _ d. Quiet d) Any r (record c { world = w })
        go (ok a) c w h = h
        go (err e) c w h = tt

    -- The evidence lists the files in order, each as it has been seen.
    abbrev pub Evident : Receipt → Type 0
    Evident e = All IsSeen e.files × IsOrdered path_before e.files

    pub checkpoint_gives :
        Gives Quiet (checkpoint m) (λ x d. ((x ≡ certified m x.1) × Evident x.1) × Quiet d) Any
    unfolding checkpoint pure
    checkpoint_gives = Gives-bind _ _ receipt_gives (λ r. Gives-bind _ _ (files_give r.files) (λ _.
        record {
          at = λ c h. (
            (
              refl,
              (
                sort_by-All path_before IsSeen r.files h.0,
                sort_by-IsOrdered path_before by_path r.files,
              ),
            ),
            h.1,
          );
        }))
