-- ===== src/Tree/Focus.antt =====
-- The keyboard focus of frontend/src/lib/dnTree.ts.
use dbx_plugin_ldap.Base.{
  ℕ, zero, suc, ◌+◌, ◌-◌, ◌≤◌, ◌≡◌, refl, ap, ◌∙◌, Option, none, some, arith,
}
use Prim.Native.Nat.{min}
use dbx_plugin_ldap.Tree.{
  FocusKey, home, end, arrow_down, arrow_up, arrow_index, next_tree_focus_index,
}

-- The index after a key has been pressed so often.
unfoldable pub presses : ℕ → ℕ → FocusKey → Option ℕ → Option ℕ
unfolding next_tree_focus_index
presses count zero key i = i
presses count (suc k) key i = next_tree_focus_index count (presses count k key i) key

down_from : (n k i : ℕ) → i ≤ n → presses (suc n) k arrow_down (some i) ≡ some (min (i + k) n)
unfolding presses next_tree_focus_index arrow_index
down_from n zero i h = ap some (omega arith)
down_from n (suc k) i h =
    ap (λ o. next_tree_focus_index (suc n) o arrow_down) (down_from n k i h) ∙ one
  where
    one : next_tree_focus_index (suc n) (some (min (i + k) n)) arrow_down ≡ some (min (i + suc k) n)
    one = ground (arith, h)

one_up : (n i : ℕ) → i ≤ n → next_tree_focus_index (suc n) (some i) arrow_up ≡ some (i - 1)
unfolding next_tree_focus_index arrow_index
one_up n zero h = ground arith
one_up n (suc i) h = ground (arith, h)

-- The first press of an arrow where nothing has the focus.
first_press :
    (n k : ℕ) (key : FocusKey) (i : ℕ)
    → next_tree_focus_index (suc n) none key ≡ some i
    → presses (suc n) (suc k) key none ≡ presses (suc n) k key (some i)
unfolding presses
first_press n zero key i h = h
first_press n (suc k) key i h =
    ap (λ o. next_tree_focus_index (suc n) o key) (first_press n k key i h)

up_from : (n k i : ℕ) → i ≤ n → presses (suc n) k arrow_up (some i) ≡ some (i - k)
unfolding presses next_tree_focus_index arrow_index
up_from n zero i h = ap some (omega arith)
up_from n (suc k) i h =
    ap (λ o. next_tree_focus_index (suc n) o arrow_up) (up_from n k i h)
    ∙ one_up n (i - k) (omega (arith, h))
    ∙ ap some (omega arith)

-- In a list of rows, `ArrowDown` pressed so often after `Home`, or once more where nothing has the
-- focus, leads as many rows down and stays at the last row; `ArrowUp` after `End`, or once more where
-- nothing has the focus, leads as many rows up from the last and stays at the first.
pub presses-next_tree_focus_index :
    (n k : ℕ) (i : Option ℕ)
    → (presses (suc n) k arrow_down (next_tree_focus_index (suc n) i home) ≡ some (min k n))
      × (presses (suc n) k arrow_up (next_tree_focus_index (suc n) i end) ≡ some (n - k))
      × (presses (suc n) (suc k) arrow_down none ≡ some (min k n))
      × (presses (suc n) (suc k) arrow_up none ≡ some (n - k))
unfolding next_tree_focus_index arrow_index
presses-next_tree_focus_index n k i = (
  down n k,
  up_from n k n (omega arith),
  first_press n k arrow_down 0 refl ∙ down n k,
  first_press n k arrow_up n (ap some (omega arith)) ∙ up_from n k n (omega arith),
)
  where
    down : (n k : ℕ) → presses (suc n) k arrow_down (some 0) ≡ some (min k n)
    down n k = down_from n k 0 (omega arith) ∙ ap some (omega arith)
