-- ===== src/Gear/Graphics.antt =====
-- `GearGraphics` of src/gear/graphics.rs but for its destructor. An `i32` and a `u32` are given by
-- their 32 bits, and `as` between them keeps the bits.
use fc2_systemdetection.Prelude.{if◌then◌else◌, usize_mod, ℕ, ◌%◌, ◌+◌, ◌-◌, ◌==◌}

-- The Windows structure RECT.
pub record Rect : Type 0 where
  pub left : ℕ
  pub top : ℕ
  pub right : ℕ
  pub bottom : ℕ

-- What graphics.rs asks of Windows: `GetSystemMetrics(SM_CMONITORS)`, and what `GetWindowRect` of
-- the desktop window leaves in the rectangle that it is given.
pub record GraphicsOs : Type 0 where
  pub monitors : ℕ
  pub get_window_rect : Rect → Rect

-- `mem::zeroed`
abbrev pub zeroed_rect : Rect
zeroed_rect = record { left = 0; top = 0; right = 0; bottom = 0 }

-- The subtraction of two `i32`, modulo 2 ^ 32.
abbrev pub wrapping_sub : ℕ → ℕ → ℕ
wrapping_sub a b = (a + usize_mod - b) % usize_mod

-- The `u32`s of the caller, by their addresses.
abbrev pub write_cell : (ℕ → ℕ) → ℕ → ℕ → ℕ → ℕ
write_cell cells pointer x a = if a == pointer then x else cells a

-- `get_adapter_info`: the null pointer.
unfoldable pub get_adapter_info : ℕ → ℕ
get_adapter_info index = 0

-- `get_monitor_count`
unfoldable pub get_monitor_count : GraphicsOs → ℕ
get_monitor_count os = os.monitors

-- `get_desktop_resolution`; `width` and `height` are addresses, 0 for null.
unfoldable pub get_desktop_resolution : GraphicsOs → (ℕ → ℕ) → ℕ → ℕ → ℕ × (ℕ → ℕ)
get_desktop_resolution os cells width height =
    let rect = os.get_window_rect zeroed_rect in
    let cells' =
      if width == 0 then cells else write_cell cells width (wrapping_sub rect.right rect.left) in
    let cells'' =
      if height == 0
      then cells'
      else write_cell cells' height (wrapping_sub rect.bottom rect.top) in
    (wrapping_sub rect.bottom rect.top, cells'')
