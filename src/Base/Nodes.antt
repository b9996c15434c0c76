-- ===== src/Base/Nodes.antt =====
-- A `struct list_head` as the list of its nodes, and how often a node occurs in it.
use itrustee_tzdriver.Base.{ℕ, ◌+◌, ◌-◌, ◌≡◌, List, [], ◌∷◌, ◌++◌, arith, ◌==◌, if◌then◌else◌}

-- `list_add_tail` of a node that is on no list, as the kernel asks. Nothing is said of a node that is
-- linked already: there the kernel's list would no longer be one.
unfoldable pub list_add_tail : ℕ → List ℕ → List ℕ
list_add_tail x xs = xs ++ x ∷ []

-- `list_del`; a node that is not on the list is left alone.
unfoldable pub list_del : ℕ → List ℕ → List ℕ
list_del x [] = []
list_del x (y ∷ ys) = if y == x then ys else y ∷ list_del x ys

abbrev pub same : ℕ → ℕ → ℕ
same x y = if x == y then 1 else 0

unfoldable pub occurs : ℕ → List ℕ → ℕ
occurs x [] = 0
occurs x (y ∷ ys) = same y x + occurs x ys

pub occurs-list_add_tail :
    (x y : ℕ) (xs : List ℕ) → occurs y (list_add_tail x xs) ≡ occurs y xs + same x y
unfolding occurs list_add_tail
occurs-list_add_tail x y [] = omega arith
occurs-list_add_tail x y (z ∷ zs) = omega (arith, occurs-list_add_tail x y zs)

pub occurs-list_del : (x y : ℕ) (xs : List ℕ) → occurs y (list_del x xs) ≡ occurs y xs - same x y
unfolding occurs list_del
occurs-list_del x y [] = omega arith
occurs-list_del x y (z ∷ zs) = ground (arith, occurs-list_del x y zs)
