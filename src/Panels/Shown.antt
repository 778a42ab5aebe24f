-- ===== src/Panels/Shown.antt =====
-- The window of frontend/src/lib/virtualScroll.ts lies in the list and holds what is to be seen.
use dbx_plugin_ldap.Base.{
  ℕ, suc, ◌+◌, ◌-◌, ◌*◌, ◌/◌, ◌≤◌, ◌<◌, ◌≡◌, inl, inr, refl, Bool, true, false, ◌||◌, arith, leb,
  ◌==◌, Bool-cases,
}
use native.Mathlib.Nat.{div-lt_iff_lt-mul, le-div_iff_mul-le, suc-mul}
use dbx_plugin_ldap.Panels.Window.{
  ℤ, pos, negsuc, minus, add, sub, floor_div, ceil_div, int_min, int_max, VirtualWindow,
  compute_window,
}

abbrev pub LessThan : ℤ → ℤ → Type 0
LessThan (pos a) (pos b) = a < b
LessThan (pos a) (negsuc b) = ⊥
LessThan (negsuc a) (pos b) = Unit
LessThan (negsuc a) (negsuc b) = b < a

-- The window begins at row `a`, and ends before row `b`.
abbrev pub Spans : VirtualWindow → ℕ → ℕ → Type 0
Spans w a b = (w.start ≡ pos a) × (w.end ≡ pos b)

clamp_start :
    (x : ℤ) (n : ℕ)
    → (a : ℕ) × (int_max (pos 0) (int_min x (pos n)) ≡ pos a)
      × (a ≤ n)
      × ((row : ℕ) → LessThan x (pos (suc row)) → a ≤ row)
clamp_start (negsuc x) n = (0, refl, omega arith, λ row h. omega arith)
clamp_start (pos x) n = elim (Bool-cases (leb x n)) [
  | inl e ↦
      let z : leb 0 x ≡ true = ground arith in
      (x, rw (e, z) refl, ground (arith, e), λ row h. omega (arith, h))
  | inr e ↦
      let z : leb 0 n ≡ true = ground arith in
      (n, rw (e, z) refl, omega arith, λ row h. ground (arith, e, h))
]

clamp_end :
    (y : ℤ) (a n : ℕ)
    → a ≤ n
    → (b : ℕ) × (int_max (pos a) (int_min y (pos n)) ≡ pos b)
      × (a ≤ b)
      × (b ≤ n)
      × ((row : ℕ) → row < n → LessThan (pos row) y → row < b)
clamp_end (negsuc y) a n h = (a, refl, omega arith, h, λ row l x. absurd x)
clamp_end (pos y) a n h = elim (Bool-cases (leb y n)) [
  | inl e ↦ elim (Bool-cases (leb a y)) [
    | inl f ↦ (y, rw (e, f) refl, ground (arith, f), ground (arith, e), λ row l x. x)
    | inr f ↦ (a, rw (e, f) refl, omega arith, h, λ row l x. ground (arith, f, x))
  ]
  | inr e ↦
      let f : leb a n ≡ true = ground (arith, h) in
      (n, rw (e, f) refl, h, omega arith, λ row l x. l)
]

module _ (scroll_top : ℤ) (viewport_height total_count row_height overscan : ℕ) where
  abbrev raw_start : ℤ
  raw_start = sub (floor_div scroll_top row_height) overscan

  abbrev raw_end : ℤ
  raw_end = add (ceil_div (add scroll_top viewport_height) row_height) overscan

  abbrev is_degenerate : Bool
  is_degenerate = total_count == 0 || (row_height == 0 || viewport_height == 0)

  -- Where nothing is degenerate, the window spans the clamped raw rows.
  window-Spans :
      is_degenerate ≡ false
      → (a : ℕ) × (b : ℕ) × Spans
          (compute_window scroll_top viewport_height total_count row_height overscan)
          a
          b
        × (a ≤ b)
        × (b ≤ total_count)
        × ((row : ℕ) → LessThan raw_start (pos (suc row)) → a ≤ row)
        × ((row : ℕ) → row < total_count → LessThan (pos row) raw_end → row < b)
  unfolding compute_window
  window-Spans e =
      let (a, s, h, first) = clamp_start raw_start total_count in
      let (b, t, l, m, last) = clamp_end raw_end a total_count h in
      (a, b, (rw e s, rw (e, s) t), l, m, first, last)

  -- The window lies within the list, for every position, also a negative one.
  pub compute_window_bounds :
      (a : ℕ) × (b : ℕ) × Spans
        (compute_window scroll_top viewport_height total_count row_height overscan)
        a
        b
      × (a ≤ b)
      × (b ≤ total_count)
  unfolding compute_window
  compute_window_bounds = elim (Bool-cases is_degenerate) [
    | inl e ↦ (0, 0, (rw e refl, rw e refl), omega arith, omega arith)
    | inr e ↦ let (a, b, s, l, m, _, _) = window-Spans e in (a, b, s, l, m)
  ]

start_before :
    (x : ℤ) (r o row : ℕ)
    → 0 < r
    → LessThan x (pos (suc row * r))
    → LessThan (sub (floor_div x r) o) (pos (suc row))
start_before (negsuc x) r o row p h = tt
start_before (pos x) r o row p h =
    let first = (div-lt_iff_lt-mul {k = r} {x = x} {y = suc row} p).1 h in below (x / r) first
  where
    below : (q : ℕ) → q < suc row → LessThan (minus q o) (pos (suc row))
    below q l = elim (Bool-cases (leb o q)) [ inl e ↦ rw e (omega arith) | inr e ↦ rw e tt ]

end_after :
    (z : ℤ) (r o row : ℕ)
    → 0 < r
    → LessThan (pos (row * r)) z
    → LessThan (pos row) (add (ceil_div z r) o)
end_after (negsuc z) r o row p h = absurd h
end_after (pos m) r o row p h =
    let product : suc row * r ≡ row * r + r = suc-mul row r in
    let last =
      (le-div_iff_mul-le {k = r} {x = suc row} {y = m + (r - 1)} p).1
        (omega (arith, product, h, p)) in
    omega (arith, last)

-- Every row of the list that the viewport shows a part of lies in the window, for every position, also
-- a negative one, where the row height and the viewport are not 0.
pub compute_window_shows :
    (scroll_top : ℤ) (viewport_height total_count row_height overscan row : ℕ)
    → 0 < row_height
    → 0 < viewport_height
    → row < total_count
    → LessThan (pos (row * row_height)) (add scroll_top viewport_height)
    → LessThan scroll_top (pos (suc row * row_height))
    → let w = compute_window scroll_top viewport_height total_count row_height overscan in
      (a : ℕ) × (b : ℕ) × Spans w a b × (a ≤ row) × (row < b)
compute_window_shows scroll_top viewport_height total_count row_height overscan row r v t above
      under =
    let e : is_degenerate scroll_top viewport_height total_count row_height overscan ≡ false =
      ground (arith, r, v, t) in
    let (a, b, s, _, _, first, last) =
      window-Spans scroll_top viewport_height total_count row_height overscan e in
    (
      a,
      b,
      s,
      first row (start_before scroll_top row_height overscan row r under),
      last row t (end_after (add scroll_top viewport_height) row_height overscan row r above),
    )
