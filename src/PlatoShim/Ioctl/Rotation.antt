-- ===== src/PlatoShim/Ioctl/Rotation.antt =====
-- Plato never sees that components/system/src/plato_shim.c turns the panel.
use nookobo.Prelude.{ℕ, ◌<◌, ◌≡◌, ap, ◌∙◌, some, arith, ◌==◌, if◌then◌else◌}
use nookobo.PlatoShim.Ioctl.{
  Call, VarInfo, turn, turn_call, half_turn, put_vscreeninfo, get_vscreeninfo, ioctl,
}

half_turn-half_turn : (r : ℕ) → r < 4 → half_turn (half_turn r) ≡ r
unfolding half_turn
half_turn-half_turn r h = ground arith

abbrev pub with_rotate : VarInfo → ℕ → VarInfo
with_rotate v r = record v { rotate = r }

-- A driver that describes the screen by `info` of its state: a put takes over the rotation and a
-- put and a get write the description to the caller's structure.
pub record KeepsRotation {D : Type 0} (real_ioctl : Call → D → ℕ × Call × D) (info : D → VarInfo)
    : Type 0 where
  pub put_law :
      (v : VarInfo) (d : D)
      → let (ret, c, d') = real_ioctl (put_vscreeninfo (some v)) d in
        (c ≡ put_vscreeninfo (some (info d'))) × ((info d').rotate ≡ v.rotate)
  pub get_law :
      (v : VarInfo) (d : D)
      → real_ioctl (get_vscreeninfo (some v)) d ≡ (0, get_vscreeninfo (some (info d)), d)

module _ {D : Type 0} (real_ioctl : Call → D → ℕ × Call × D) (info : D → VarInfo) where
  get_turned :
      (w : VarInfo) (d : D)
      → KeepsRotation real_ioctl info
      → ioctl real_ioctl (get_vscreeninfo (some w)) d
        ≡ (0, get_vscreeninfo (some (turn (info d))), d)
  unfolding ioctl
  get_turned w d law =
      ap (λ r. (r.0, if r.0 == 0 then turn_call r.1 else r.1, r.2)) (law.get_law w d)

-- With such a driver, after Plato puts a rotation below 4 the driver has it turned by 180 degrees,
-- while Plato's structure after the put and after the next get has the rotation that Plato put.
pub ioctl-rotation :
    {D : Type 0} (real_ioctl : Call → D → ℕ × Call × D) (info : D → VarInfo) (v w : VarInfo) (d : D)
    → KeepsRotation real_ioctl info
    → v.rotate < 4
    → let (ret, c, d') = ioctl real_ioctl (put_vscreeninfo (some v)) d in
      ((info d').rotate ≡ half_turn v.rotate)
      × (c ≡ put_vscreeninfo (some (with_rotate (info d') v.rotate)))
      × (ioctl real_ioctl (get_vscreeninfo (some w)) d'
          ≡ (0, get_vscreeninfo (some (with_rotate (info d') v.rotate)), d'))
unfolding ioctl
ioctl-rotation real_ioctl info v w d law h =
    let d' = (real_ioctl (put_vscreeninfo (some (turn v))) d).2 in
    let (same, kept) = law.put_law (turn v) d in
    let back : half_turn (info d').rotate ≡ v.rotate =
      ap half_turn kept ∙ half_turn-half_turn v.rotate h in
    (
      kept,
      ap turn_call same ∙ ap (λ r. put_vscreeninfo (some (with_rotate (info d') r))) back,
      get_turned real_ioctl info w d' law
          ∙ ap (λ r. (0, get_vscreeninfo (some (with_rotate (info d') r)), d')) back,
    )
