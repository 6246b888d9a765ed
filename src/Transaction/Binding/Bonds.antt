-- ===== src/Transaction/Binding/Bonds.antt =====
-- What a sequence of calls of `bind` and `unbind` leaves bound.
use tboost_stm.Prelude.{
  ℕ, ◌≤◌, ◌<◌, ◌≡◌, ◌≢◌, refl, sym, ap, subst, ◌∙◌, ◌==◌, if◌then◌else◌, List, [], ◌∷◌, ◌++◌, All,
  arith, ℕ_discrete, ltb, Bool-cases, inl, inr, ==-eq_true, ==-eq_false,
}
use tboost_stm.Transaction.Binding.{bind, unbind, unbind_pair, bound_run, bound_to}

-- A list of pairs in the order of the keys.
abbrev IsOrdered : List (ℕ × ℕ) → Type 0
IsOrdered [] = Unit {0}
IsOrdered ((k, b) ∷ m) = All (λ e. k ≤ e.0) m × IsOrdered m

All-bind :
    (j lhs rhs : ℕ) (m : List (ℕ × ℕ))
    → All (λ e. j ≤ e.0) m
    → j ≤ lhs
    → All (λ e. j ≤ e.0) (bind lhs rhs m)
unfolding bind
All-bind j lhs rhs [] k l = (l, tt)
All-bind j lhs rhs ((i, b) ∷ m) k l = elim (Bool-cases (ltb lhs i)) [
  | inl first ↦ rw first (l, k)
  | inr later ↦ rw later (k.0, All-bind j lhs rhs m k.1 l)
]

All-below : (j i : ℕ) (m : List (ℕ × ℕ)) → j ≤ i → All (λ e. i ≤ e.0) m → All (λ e. j ≤ e.0) m
All-below j i [] l k = tt
All-below j i (e ∷ m) l k = (let h = k.0 in omega arith, All-below j i m l k.1)

bind-IsOrdered : (lhs rhs : ℕ) (m : List (ℕ × ℕ)) → IsOrdered m → IsOrdered (bind lhs rhs m)
unfolding bind
bind-IsOrdered lhs rhs [] k = (tt, tt)
bind-IsOrdered lhs rhs ((i, b) ∷ m) k = elim (Bool-cases (ltb lhs i)) [
  | inl first ↦ let le : lhs ≤ i = ground arith in rw first ((le, All-below lhs i m le k.0), k)
  | inr later ↦
      let le : i ≤ lhs = ground arith in
      rw later (All-bind i lhs rhs m k.0 le, bind-IsOrdered lhs rhs m k.1)
]

bound_run-bind :
    (lhs rhs : ℕ) (m : List (ℕ × ℕ))
    → All (λ e. lhs ≤ e.0) m
    → bound_run lhs (bind lhs rhs m) ≡ bound_run lhs m ++ rhs ∷ []
unfolding bound_run bind
bound_run-bind lhs rhs [] k = ground arith
bound_run-bind lhs rhs ((j, b) ∷ m) k =
    let le = k.0 in let rest = bound_run-bind lhs rhs m k.1 in ground arith

bound_run-bind_ne :
    (x lhs rhs : ℕ) (m : List (ℕ × ℕ)) → x < lhs → bound_run x (bind lhs rhs m) ≡ bound_run x m
unfolding bound_run bind
bound_run-bind_ne x lhs rhs [] l = ground arith
bound_run-bind_ne x lhs rhs ((j, b) ∷ m) l =
    let rest = bound_run-bind_ne x lhs rhs m l in ground arith

bound_to-absent : (x : ℕ) (m : List (ℕ × ℕ)) → All (λ e. x < e.0) m → bound_to x m ≡ []
unfolding bound_to
bound_to-absent x [] k = refl
bound_to-absent x ((j, b) ∷ m) k =
    let lt = k.0 in let rest = bound_to-absent x m k.1 in ground arith

All-above : (x j : ℕ) (m : List (ℕ × ℕ)) → x < j → All (λ e. j ≤ e.0) m → All (λ e. x < e.0) m
All-above x j [] l k = tt
All-above x j (e ∷ m) l k = (let h = k.0 in omega arith, All-above x j m l k.1)

-- A new bond comes after the older ones of its object, and leaves those of other objects.
bound_to-bind :
    (lhs rhs : ℕ) (m : List (ℕ × ℕ))
    → IsOrdered m
    → bound_to lhs (bind lhs rhs m) ≡ bound_to lhs m ++ rhs ∷ []
unfolding bound_to bound_run bind
bound_to-bind lhs rhs [] k = ground arith
bound_to-bind lhs rhs ((j, b) ∷ m) k = elim (Bool-cases (ltb lhs j)) [
  | inl first ↦
      let lt : lhs < j = ground arith in
      let none_yet = bound_to-absent lhs m (All-above lhs j m lt k.0) in ground arith
  | inr later ↦ elim (ℕ_discrete j lhs) [
    | yes same ↦
        let run = bound_run-bind lhs rhs m (subst (λ z. All (λ e. z ≤ e.0) m) same k.0) in
        ground arith
    | no other ↦ let rest = bound_to-bind lhs rhs m k.1 in ground arith
  ]
]

bound_to-bind_ne :
    (x lhs rhs : ℕ) (m : List (ℕ × ℕ))
    → IsOrdered m
    → x ≢ lhs
    → bound_to x (bind lhs rhs m) ≡ bound_to x m
unfolding bound_to bound_run bind
bound_to-bind_ne x lhs rhs [] k ne = ground arith
bound_to-bind_ne x lhs rhs ((j, b) ∷ m) k ne = elim (Bool-cases (ltb lhs j)) [
  | inl first ↦ ground arith
  | inr later ↦ elim (ℕ_discrete j x) [
    | yes same ↦
        let lt : x < lhs = ground arith in
        let run = bound_run-bind_ne x lhs rhs m lt in ground arith
    | no other ↦ let rest = bound_to-bind_ne x lhs rhs m k.1 ne in ground arith
  ]
]

-- The calls of a client that bind an object to another and unbind it.
pub data Bond : Type 0 where
  binds unbinds_pair : ℕ → ℕ → Bond
  unbinds : ℕ → Bond

unfoldable pub call : Bond → List (ℕ × ℕ) → List (ℕ × ℕ)
unfolding bind unbind unbind_pair
call (binds lhs rhs) m = bind lhs rhs m
call (unbinds_pair lhs rhs) m = unbind_pair lhs rhs m
call (unbinds lhs) m = unbind lhs m

unfoldable pub call_all : List Bond → List (ℕ × ℕ) → List (ℕ × ℕ)
unfolding call
call_all [] m = m
call_all (c ∷ cs) m = call_all cs (call c m)

-- The objects that the calls bind to an object, in the order of the calls.
abbrev pub ever_bound : ℕ → List Bond → List ℕ
ever_bound x [] = []
ever_bound x (binds lhs rhs ∷ cs) = if lhs == x then rhs ∷ ever_bound x cs else ever_bound x cs
ever_bound x (unbinds_pair lhs rhs ∷ cs) = ever_bound x cs
ever_bound x (unbinds lhs ∷ cs) = ever_bound x cs

append_one : (l : List ℕ) (y : ℕ) (l' : List ℕ) → (l ++ y ∷ []) ++ l' ≡ l ++ y ∷ l'
append_one [] y l' = refl
append_one (x ∷ l) y l' = ap (λ z. x ∷ z) (append_one l y l')

append_empty : (l : List ℕ) → l ++ [] ≡ l
append_empty [] = refl
append_empty (x ∷ l) = ap (λ z. x ∷ z) (append_empty l)

bound_from :
    (x : ℕ) (cs : List Bond) (m : List (ℕ × ℕ))
    → IsOrdered m
    → bound_to x (call_all cs m) ≡ bound_to x m ++ ever_bound x cs
unfolding call_all call unbind unbind_pair
bound_from x [] m k = sym (append_empty (bound_to x m))
bound_from x (unbinds lhs ∷ cs) m k = bound_from x cs m k
bound_from x (unbinds_pair lhs rhs ∷ cs) m k = bound_from x cs m k
bound_from x (binds lhs rhs ∷ cs) m k =
    let rest = bound_from x cs (bind lhs rhs m) (bind-IsOrdered lhs rhs m k) in
    elim (ℕ_discrete lhs x) [
      | yes same ↦
          let now : bound_to x (bind lhs rhs m) ≡ bound_to x m ++ rhs ∷ [] =
            subst (λ z. bound_to z (bind lhs rhs m) ≡ bound_to z m ++ rhs ∷ []) same
              (bound_to-bind lhs rhs m k) in
          rw (==-eq_true lhs x same) (
            rest
            ∙ ap (λ z. z ++ ever_bound x cs) now
            ∙ append_one (bound_to x m) rhs (ever_bound x cs))
      | no other ↦
          rest
          ∙ rw (bound_to-bind_ne x lhs rhs m k (λ z. other (sym z)), ==-eq_false lhs x other) refl
    ]

-- Whatever calls of `bind` and of both kinds of `unbind` a client makes, the objects that
-- `if_bound_perform_subreads` finds bound to an object are all that were ever bound to it, in the
-- order of the calls of `bind`: no call unbinds anything.
pub bound_to-call_all : (x : ℕ) (cs : List Bond) → bound_to x (call_all cs []) ≡ ever_bound x cs
unfolding bound_to
bound_to-call_all x cs = bound_from x cs [] tt
