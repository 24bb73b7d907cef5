-- ===== src/Admin/Snapshots/Round.antt =====
-- A snapshot written and read by the routes of crates/admin/src/lib.rs.
use servr.Common.{
  ℕ, ◌≡◌, refl, ap, subst, ◌∙◌, ◌⊎◌, inr, false, Option, none, some, Bytes, bytes_beq,
  bytes_beq_iff, FitsI64,
}
use servr.Core.Float.{Float}
use servr.Core.Chrono.{Chrono}
use servr.Core.State.{State, unwrap_or}
use servr.Core.Snapshot.{SnapshotError, Sqlite, Texts, Snapshot, capture, write, read}
use servr.Core.Snapshot.Saved.{SqliteLaws, ReadsBack, read-write, capture_version}
use servr.Admin.Snapshots.{
  default_snapshot, Written, Files, put, answer, write_snapshot, read_snapshot,
}

module _ (float : Float) (chrono : Chrono) (sqlite : Sqlite) (texts : Texts float chrono)
    (laws : SqliteLaws sqlite) where
  open chrono use {DateTime}
  open sqlite use {File, open_file}

  answered :
      (s : Snapshot float chrono) (path : Bytes) (e : Option SnapshotError) (w : Written)
      → answer float chrono sqlite texts s path e ≡ inr w
      → (e ≡ none) × (w.path ≡ path) × (w.run ≡ s.run)
  answered s path (some e) w h = absurd (cc)
  answered s path none w h =
      let same = inr_inj h in
      (refl, ap (λ (x : Written). x.path) same, ap (λ (x : Written). x.run) same)
    where
      inr_inj : {a b : Written} → ◌≡◌ {A = SnapshotError ⊎ Written} (inr a) (inr b) → b ≡ a
      inr_inj e = cc

  put_same :
      (files : Files float chrono sqlite texts) (path : Bytes) (file : File)
      → put float chrono sqlite texts files path file path ≡ file
  put_same files path file = rw ((bytes_beq_iff path path).1 refl) refl

  -- What the write route answers with a path and no error is read back by the read route under the
  -- same name, the default one included, if the file can be opened again: the control plane as it
  -- stood when it was captured, with the run that the answer names. The texts written must be read
  -- back and the clock's offset be an `i64`. No other file changes.
  pub read_snapshot-write_snapshot :
      (files : Files float chrono sqlite texts) (s : State float chrono) (path : Option Bytes)
      (wall : DateTime) (instant : ℕ) (w : Written) (reopened : File)
      → ReadsBack float chrono sqlite texts (capture float chrono s wall instant)
      → FitsI64 s.clock.offset_ms
      → (write_snapshot float chrono sqlite texts files s path wall instant).1 ≡ inr w
      → let files' = (write_snapshot float chrono sqlite texts files s path wall instant).0 in
        open_file (files' w.path) ≡ (reopened, none)
        → (read_snapshot float chrono sqlite texts files' path
            ≡ inr (capture float chrono s wall instant))
          × (w.run ≡ s.run)
          × (w.path ≡ unwrap_or path default_snapshot)
          × ((other : Bytes) → bytes_beq w.path other ≡ false → files' other ≡ files other)
  unfolding write_snapshot read_snapshot capture
  read_snapshot-write_snapshot files s path wall instant w reopened r fits ok opens =
      let name = unwrap_or path default_snapshot in
      let saved = capture float chrono s wall instant in
      let out = write float chrono sqlite texts saved (files name) in
      let (fine, same, run) = answered saved name out.1 w ok in
      let stands = put_same files name out.0 in
      let opens' : open_file out.0 ≡ (reopened, none) =
        subst (λ f. open_file f ≡ (reopened, none)) (stands)
          (subst
            (λ p. open_file (put float chrono sqlite texts files name out.0 p) ≡ (reopened, none))
            same opens) in
      let back =
        read-write float chrono sqlite texts laws name saved (files name) out.0 reopened r fits
          (capture_version float chrono sqlite texts s wall instant) (ap (λ e. (out.0, e)) fine)
          opens' in
      (
        ap (read float chrono sqlite texts name) stands ∙ back,
        run,
        same,
        λ other d. other_file other (subst (λ p. bytes_beq p other ≡ false) same d),
      )
    where
      other_file :
          (other : Bytes)
          → bytes_beq (unwrap_or path default_snapshot) other ≡ false
          → put float chrono sqlite texts files
              (unwrap_or path default_snapshot)
              (write float chrono sqlite texts
                (capture float chrono s wall instant)
                (files (unwrap_or path default_snapshot))).0
              other
            ≡ files other
      other_file other d = rw d refl
