-- ===== src/PlatoShim/Ioctl.antt =====
-- `ioctl` of components/system/src/plato_shim.c: Plato's requests as the kernel's driver knows them,
-- and the panel turned by 180 degrees. PlatoShim.Log has the log.
pub mod Rotation
use nookobo.Prelude.{ℕ, ◌+◌, ◌%◌, ◌^◌, Bool, true, false, Option, none, some, ◌==◌, if◌then◌else◌}

-- `struct mxcfb_rect`
pub record Rect : Type 0 where
  pub top : ℕ
  pub left : ℕ
  pub width : ℕ
  pub height : ℕ

-- `struct mxcfb_alt_buffer_data`
pub record AltBuffer : Type 0 where
  pub phys_addr : ℕ
  pub alt_width : ℕ
  pub alt_height : ℕ
  pub alt_update_region : Rect

-- `struct mxcfb_update_data_v1`
pub record UpdateV1 : Type 0 where
  pub update_region : Rect
  pub waveform_mode : ℕ
  pub update_mode : ℕ
  pub update_marker : ℕ
  pub temp : ℕ
  pub flags : ℕ
  pub alt_buffer_data : AltBuffer

-- `struct mxcfb_update_data_v2` and the Plato struct: what they have besides the fields of V1.
pub record UpdateV2 : Type 0 where
  pub common : UpdateV1
  pub dither_mode : ℕ
  pub quant_bit : ℕ

pub record UpdatePlato : Type 0 where
  pub plato_common : UpdateV1
  pub virt_addr : ℕ

-- `struct fb_var_screeninfo`: the rotation, and the other fields as the driver sees them.
pub record VarInfo : Type 0 where
  pub rotate : ℕ
  pub other_fields : ℕ → ℕ

-- A request with what its argument points to; `none` is a null pointer.
pub data Call : Type 0 where
  send_update_v1 : UpdateV1 → Call
  send_update_v2 : UpdateV2 → Call
  send_update_plato : UpdatePlato → Call
  wait_v1 : (marker collision_test : ℕ) → Call
  wait_v2 : Option ℕ → Call
  put_vscreeninfo : Option VarInfo → Call
  get_vscreeninfo : Option VarInfo → Call
  grab : Call
  other : ℕ → Call

-- (rotate + 2) % 4 over uint32_t
unfoldable pub half_turn : ℕ → ℕ
half_turn r = (r + 2) % 2 ^ 32 % 4

abbrev pub turn : VarInfo → VarInfo
turn v = record v { rotate = half_turn v.rotate }

-- The structure at the caller's pointer, turned.
abbrev pub turn_call : Call → Call
turn_call (put_vscreeninfo (some v)) = put_vscreeninfo (some (turn v))
turn_call (get_vscreeninfo (some v)) = get_vscreeninfo (some (turn v))
turn_call c = c

abbrev marker_of : Option ℕ → ℕ
marker_of none = 0
marker_of (some m) = m

-- The C library's `ioctl` over a driver's state: it gives a return value, as a bit pattern, and
-- leaves the argument as the driver wrote it.
module _ {D : Type 0} (real_ioctl : Call → D → ℕ × Call × D) where
  unfoldable pub ioctl : Call → D → ℕ × Call × D
  ioctl (send_update_v2 u) d =
      let (ret, c, d') = real_ioctl (send_update_v1 u.common) d in (ret, send_update_v2 u, d')
  ioctl (send_update_plato u) d =
      let (ret, c, d') = real_ioctl (send_update_v1 u.plato_common) d in
      (ret, send_update_plato u, d')
  ioctl (wait_v2 m) d =
      let (ret, c, d') = real_ioctl (wait_v1 (marker_of m) 0) d in (ret, wait_v2 m, d')
  ioctl (put_vscreeninfo (some v)) d =
      let (ret, c, d') = real_ioctl (put_vscreeninfo (some (turn v))) d in (ret, turn_call c, d')
  ioctl (get_vscreeninfo (some v)) d =
      let (ret, c, d') = real_ioctl (get_vscreeninfo (some v)) d in
      (ret, if ret == 0 then turn_call c else c, d')
  ioctl grab d = (0, grab, d)
  ioctl c d = real_ioctl c d
