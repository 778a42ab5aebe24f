-- ===== src/Panels/Window.antt =====
-- The window of frontend/src/lib/virtualScroll.ts. A position is an integer, and may be negative; the
-- lengths are natural and, with the position, counted in a unit that divides them all.
use dbx_plugin_ldap.Base.{ℕ, suc, ◌+◌, ◌-◌, ◌/◌, Bool, true, false, ◌||◌, leb, ◌==◌, if◌then◌else◌}

pub data ℤ : Type 0 where
  pos : ℕ → ℤ
  negsuc : ℕ → ℤ

-- `a - b`.
abbrev pub minus : ℕ → ℕ → ℤ
minus a b = if leb b a then pos (a - b) else negsuc (b - suc a)

abbrev pub add : ℤ → ℕ → ℤ
add (pos a) n = pos (a + n)
add (negsuc a) n = minus n (suc a)

abbrev pub sub : ℤ → ℕ → ℤ
sub (pos a) n = minus a n
sub (negsuc a) n = negsuc (a + n)

-- `Math.floor(x / n)`.
abbrev pub floor_div : ℤ → ℕ → ℤ
floor_div (pos a) n = pos (a / n)
floor_div (negsuc a) n = negsuc (a / n)

-- `Math.ceil(x / n)`.
abbrev pub ceil_div : ℤ → ℕ → ℤ
ceil_div (pos a) n = pos ((a + (n - 1)) / n)
ceil_div (negsuc a) n = minus 0 (suc a / n)

abbrev pub is_le : ℤ → ℤ → Bool
is_le (pos a) (pos b) = leb a b
is_le (pos a) (negsuc b) = false
is_le (negsuc a) (pos b) = true
is_le (negsuc a) (negsuc b) = leb b a

abbrev pub int_min : ℤ → ℤ → ℤ
int_min x y = if is_le x y then x else y

abbrev pub int_max : ℤ → ℤ → ℤ
int_max x y = if is_le x y then y else x

pub record VirtualWindow : Type 0 where
  pub start : ℤ
  pub end : ℤ

unfoldable pub compute_window : ℤ → ℕ → ℕ → ℕ → ℕ → VirtualWindow
compute_window scroll_top viewport_height total_count row_height overscan =
    let raw_start = sub (floor_div scroll_top row_height) overscan in
    let raw_end = add (ceil_div (add scroll_top viewport_height) row_height) overscan in
    let start = int_max (pos 0) (int_min raw_start (pos total_count)) in
    if total_count == 0 || (row_height == 0 || viewport_height == 0)
    then record { start = pos 0; end = pos 0 }
    else record { start = start; end = int_max start (int_min raw_end (pos total_count)) }
