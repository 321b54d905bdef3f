-- ===== src/PlatoShim/IoctlTests.antt =====
-- The theorem on `ioctl` of components/system/src/plato_shim.c with a driver that has one rotation.
use nookobo.Prelude.{ℕ, ◌≡◌, refl, some, arith}
use nookobo.PlatoShim.Ioctl.{Call, VarInfo, put_vscreeninfo, get_vscreeninfo, half_turn, ioctl}
use nookobo.PlatoShim.Ioctl.Rotation.{with_rotate, KeepsRotation, ioctl-rotation}

-- The driver's state is the description; it refuses nothing.
abbrev driver : Call → VarInfo → ℕ × Call × VarInfo
driver (put_vscreeninfo (some v)) d = (0, put_vscreeninfo (some v), v)
driver (get_vscreeninfo (some v)) d = (0, get_vscreeninfo (some d), d)
driver c d = (0, c, d)

driver-KeepsRotation : KeepsRotation driver (λ d. d)
driver-KeepsRotation = record { put_law = λ v d. (refl, refl); get_law = λ v d. refl }

abbrev upright : VarInfo
upright = record { rotate = 1; other_fields = λ i. 0 }

abbrev after_put : ℕ × Call × VarInfo
after_put = ioctl driver (put_vscreeninfo (some upright)) upright

ioctl-rotation_example :
    (after_put.2.rotate ≡ half_turn 1)
    × (after_put.1 ≡ put_vscreeninfo (some (with_rotate after_put.2 1)))
    × (ioctl driver (get_vscreeninfo (some upright)) after_put.2
        ≡ (0, get_vscreeninfo (some (with_rotate after_put.2 1)), after_put.2))
ioctl-rotation_example =
    ioctl-rotation driver (λ d. d) upright upright upright driver-KeepsRotation (omega arith)
