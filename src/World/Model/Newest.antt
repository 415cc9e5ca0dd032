-- ===== src/World/Model/Newest.antt =====
-- The view of a connection is its newest snapshot (bazaar_client/world/model.py).
use mathlib.Core.Option.{some-injective}
use spaceport_bazzar_client.Base.{
  leb, Bool-cases, length, All, ℕ, ◌+◌, ◌≤◌, ◌≡◌, refl, sym, ◌⊎◌, inl, inr, some, List, [], ◌∷◌,
  arith,
}
use spaceport_bazzar_client.Domain.Types.{Snapshot}
use spaceport_bazzar_client.World.Model.{WorldModel, apply_snapshot, forget}

-- Every snapshot of a connection in turn.
pub apply_each_snapshot : List Snapshot → WorldModel → WorldModel
apply_each_snapshot [] m = m
apply_each_snapshot (s ∷ snaps) m = apply_each_snapshot snaps (apply_snapshot s m).1

-- `s` is one of the list.
abbrev pub IsIn : Snapshot → List Snapshot → Type 0
IsIn s [] = ⊥
IsIn s (t ∷ snaps) = (s ≡ t) ⊎ IsIn s snaps

-- The view `m` came from `before`, or is a snapshot of the list; it is at least as new as `before`
-- and as all of the list.
pub record Newest (snaps : List Snapshot) (before m : WorldModel) : Type 0 where
  pub view : Snapshot
  pub shown : m.current ≡ some view
  pub numbered : m.last_sequence ≡ view.snapshot_sequence
  pub newest : All (λ s. s.snapshot_sequence ≤ view.snapshot_sequence) snaps
  pub kept : before.last_sequence ≤ view.snapshot_sequence
  pub origin : (before.current ≡ some view) ⊎ IsIn view snaps
  pub counted :
      m.applied_count + m.ignored_count ≡ before.applied_count + before.ignored_count + length snaps

-- A model that shows `s`.
abbrev showing : Snapshot → ℕ → ℕ → WorldModel
showing s applied ignored = record {
  current = some s;
  last_sequence = s.snapshot_sequence;
  applied_count = applied;
  ignored_count = ignored;
}

showing-Newest :
    (snaps : List Snapshot) (s : Snapshot) (applied ignored : ℕ)
    → Newest snaps
        (showing s applied ignored)
        (apply_each_snapshot snaps (showing s applied ignored))
unfolding apply_each_snapshot apply_snapshot
showing-Newest [] s applied ignored = record {
  view = s;
  shown = refl;
  numbered = refl;
  newest = tt;
  kept = omega arith;
  origin = inl refl;
  counted = omega arith;
}
showing-Newest (t ∷ snaps) s applied ignored =
    elim (Bool-cases (leb t.snapshot_sequence s.snapshot_sequence)) [
      | inl stale ↦
          let k = showing-Newest snaps s applied (ignored + 1) in
          rw stale (record {
            view = k.view;
            shown = k.shown;
            numbered = k.numbered;
            newest = (ground (arith, k.kept), k.newest);
            kept = k.kept;
            origin = elim k.origin [ inl old ↦ inl old | inr new ↦ inr (inr new) ];
            counted = omega (arith, k.counted);
          })
      | inr fresh ↦
          let k = showing-Newest snaps t (applied + 1) ignored in
          rw fresh (record {
            view = k.view;
            shown = k.shown;
            numbered = k.numbered;
            newest = (k.kept, k.newest);
            kept = ground (arith, k.kept);
            origin = inr (elim k.origin [
              | inl old ↦ inl (sym (some-injective _ _ old))
              | inr new ↦ inr new
            ]);
            counted = omega (arith, k.counted);
          })
    ]

-- After the snapshots of a connection, at least one of them, the view of a new or reset model is one
-- of them, none is newer than it, and each was counted once, as applied or as ignored.
pub apply_each_snapshot-Newest :
    (first : Snapshot) (snaps : List Snapshot) (m : WorldModel)
    → Newest (first ∷ snaps) (forget m) (apply_each_snapshot (first ∷ snaps) (forget m))
unfolding apply_each_snapshot apply_snapshot forget
apply_each_snapshot-Newest first snaps m =
    let k = showing-Newest snaps first (m.applied_count + 1) m.ignored_count in
    record {
      view = k.view;
      shown = k.shown;
      numbered = k.numbered;
      newest = (k.kept, k.newest);
      kept = omega arith;
      origin =
          inr (elim k.origin [ inl old ↦ inl (sym (some-injective _ _ old)) | inr new ↦ inr new ]);
      counted = omega (arith, k.counted);
    }
