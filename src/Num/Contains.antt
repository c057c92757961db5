-- ===== src/Num/Contains.antt =====
-- `Num::contains` against the walk along the two numbers.
use git_cvs_fast_import.Prelude.{
  ℕ, zero, suc, ◌+◌, ◌/◌, ◌<◌, ◌≡◌, refl, ap, ◌∙◌, List, [], ◌∷◌, Option, none, some, Bool, true,
  false, ◌&&◌, ◌||◌, not, ◌==◌, ltb, leb, if◌then◌else◌, length, Outcome, ok, arith, Bool-cases,
  inl, inr, take,
}
use git_cvs_fast_import.Num.{
  branch, commit, Error, check_at, check_loop, check_leaf, check_all, contains, to_branch,
}

-- The branch and the commit side by side: each branch number agrees, no revision on the way is behind
-- the one that the branch starts from, and a commit that ends early is on an ancestor.
unfoldable pub on_branch : List ℕ → List ℕ → Bool
on_branch (b ∷ r ∷ bs) (c ∷ s ∷ cs) = (c == b) && leb s r && on_branch bs cs
on_branch (b ∷ []) (c ∷ cs) = c == b
on_branch _ _ = true

-- An odd number of parts, and an even one.
abbrev pub IsBranch : List ℕ → Type 0
IsBranch [] = ⊥
IsBranch (b ∷ []) = Unit
IsBranch (b ∷ r ∷ bs) = IsBranch bs

abbrev pub IsCommit : List ℕ → Type 0
IsCommit [] = Unit
IsCommit (c ∷ []) = ⊥
IsCommit (c ∷ s ∷ cs) = IsCommit cs

check_loop-shift :
    (rounds : ℕ) (x y c d : ℕ) (b o : List ℕ) (i : ℕ)
    → check_loop rounds (x ∷ y ∷ b) (c ∷ d ∷ o) (suc (suc i)) ≡ check_loop rounds b o i
unfolding check_loop check_at
check_loop-shift zero x y c d b o i = refl
check_loop-shift (suc rounds) x y c d b o i =
    ap (λ (t : Option (Outcome Error Bool)). elim (check_at b o i) [ some r ↦ some r | none ↦ t ])
      (check_loop-shift rounds x y c d b o (suc (suc i)))

abbrev double : ℕ → ℕ
double zero = 0
double (suc k) = suc (suc (double k))

abbrev finish : List ℕ → List ℕ → ℕ → Option (Outcome Error Bool) → Outcome Error Bool
finish b o i (some r) = r
finish b o i none = check_leaf b o i

-- What `k` rounds from index 0 and the leaf test find.
walk : ℕ → List ℕ → List ℕ → Outcome Error Bool
walk k b o = finish b o (double k) (check_loop k b o 0)

finish-shift :
    (k b r c s : ℕ) (bs cs : List ℕ) (x : Option (Outcome Error Bool))
    → finish (b ∷ r ∷ bs) (c ∷ s ∷ cs) (double (suc k)) x ≡ finish bs cs (double k) x
unfolding check_leaf
finish-shift k b r c s bs cs none = refl
finish-shift k b r c s bs cs (some o) = refl

finish-elim :
    (b o : List ℕ) (i : ℕ) (x : Option (Outcome Error Bool))
    → (elim x [ some r ↦ r | none ↦ check_leaf b o i ]) ≡ finish b o i x
finish-elim b o i none = refl
finish-elim b o i (some r) = refl

walk-suc :
    (k b r c s : ℕ) (bs cs : List ℕ)
    → walk (suc k) (b ∷ r ∷ bs) (c ∷ s ∷ cs)
      ≡ (if not (c == b) then ok false else if ltb r s then ok false else walk k bs cs)
unfolding walk check_loop
walk-suc k b r c s bs cs = elim (Bool-cases (c == b)) [
  | inl same ↦ (elim (Bool-cases (ltb r s)) [
    | inl late ↦
        let stop : check_at (b ∷ r ∷ bs) (c ∷ s ∷ cs) 0 ≡ some (ok false) =
          unfold check_at in rw (same, late) in
        rw (same, late) (rw (stop, check_loop))
    | inr early ↦
        let on : check_at (b ∷ r ∷ bs) (c ∷ s ∷ cs) 0 ≡ none =
          unfold check_at in rw (same, early) in
        rw (same, early)
          (rw (on, check_loop)
            (ap (finish (b ∷ r ∷ bs) (c ∷ s ∷ cs) (double (suc k)))
                (check_loop-shift k b r c s bs cs 0)
              ∙ finish-shift k b r c s bs cs (check_loop k bs cs 0)))
  ])
  | inr other ↦
      let stop : check_at (b ∷ r ∷ bs) (c ∷ s ∷ cs) 0 ≡ some (ok false) =
        unfold check_at in rw other in
      rw other (rw (stop, check_loop))
]

walk-on_branch :
    (k : ℕ) (b o : List ℕ)
    → length b ≡ suc (double k)
    → IsCommit o
    → walk k b o ≡ ok (on_branch b o)
unfolding on_branch
walk-on_branch k [] o e ho = absurd (omega arith)
walk-on_branch zero (b ∷ []) [] e ho = unfold walk check_loop check_leaf check_at in refl
walk-on_branch zero (b ∷ []) (c ∷ o) e ho =
    unfold walk check_loop check_leaf check_at in ground arith
walk-on_branch (suc k) (b ∷ []) o e ho = absurd (omega arith)
walk-on_branch zero (b ∷ r ∷ bs) o e ho = absurd (omega arith)
walk-on_branch (suc k) (b ∷ r ∷ bs) [] e ho = unfold walk check_loop check_at check_leaf in refl
walk-on_branch (suc k) (b ∷ r ∷ bs) (c ∷ []) e ho = absurd ho
walk-on_branch (suc k) (b ∷ r ∷ bs) (c ∷ s ∷ cs) e ho =
    rw (walk-suc k b r c s bs cs, walk-on_branch k bs cs (omega arith) ho) (ground arith)

IsBranch-length :
    (b : List ℕ) → IsBranch b → (k : ℕ) × (length b ≡ suc (double k)) × (suc (double k) / 2 ≡ k)
IsBranch-length [] h = absurd h
IsBranch-length (b ∷ []) h = (0, omega arith, omega arith)
IsBranch-length (b ∷ r ∷ bs) h =
    let (k, e, half) = IsBranch-length bs h in (suc k, omega arith, omega arith)

check_all-walk :
    (k : ℕ) (b o : List ℕ)
    → length b ≡ suc (double k)
    → suc (double k) / 2 ≡ k
    → check_all b o ≡ walk k b o
unfolding walk
check_all-walk k b o e half =
    unfold check_all in
    rw (e, check_all) (rw half (finish-elim b o (double k) (check_loop k b o 0)))

abbrev yields : Bool → Outcome Error Bool
yields t = ok t

within : (a b : ℕ) (t : Bool) → (if ltb b a then yields false else yields t) ≡ yields (leb a b && t)
within a b t = ground arith

-- For a branch and a commit, `contains` is true just when the commit is at most one revision deeper
-- than the branch and goes along it; it neither fails nor panics.
pub contains-on_branch :
    (b o : List ℕ)
    → IsBranch b
    → IsCommit o
    → contains (branch b) (commit o) ≡ ok (leb (length o) (length b + 1) && on_branch b o)
unfolding contains
contains-on_branch b o hb ho =
    let (k, e, half) = IsBranch-length b hb in
    let inner : check_all b o ≡ ok (on_branch b o) =
      check_all-walk k b o e half ∙ walk-on_branch k b o e ho in
    rw inner (within (length o) (length b + 1) (on_branch b o))

-- For two branches of one trunk that start at two revisions and have the same branch number,
-- `contains` takes every commit of the branch that starts earlier for a commit of the later one.
pub contains-sibling :
    (trunk r s k c : ℕ)
    → s < r
    → contains (branch (trunk ∷ r ∷ k ∷ [])) (commit (trunk ∷ s ∷ k ∷ c ∷ [])) ≡ ok true
contains-sibling trunk r s k c h =
    contains-on_branch (trunk ∷ r ∷ k ∷ []) (trunk ∷ s ∷ k ∷ c ∷ []) tt tt
    ∙ unfold on_branch in ground arith

-- A commit lies on the branch that `to_branch` makes of it.
on_branch-take :
    (c d : ℕ) (o : List ℕ)
    → IsCommit o
    → IsBranch (take (suc (length o)) (c ∷ d ∷ o))
      × (on_branch (take (suc (length o)) (c ∷ d ∷ o)) (c ∷ d ∷ o) ≡ true)
      × (length (take (suc (length o)) (c ∷ d ∷ o)) ≡ suc (length o))
unfolding on_branch
on_branch-take c d [] h = (tt, ground arith, refl)
on_branch-take c d (e ∷ []) h = absurd h
on_branch-take c d (e ∷ f ∷ o) h =
    let (is_branch, on, len) = on_branch-take e f o h in (is_branch, ground arith, omega arith)

-- The branch that `to_branch` makes of a commit is a branch, and contains the commit.
pub contains-to_branch :
    (c : ℕ) (o : List ℕ)
    → IsCommit (c ∷ o)
    → (b : List ℕ) × (to_branch (commit (c ∷ o)) ≡ ok (branch b))
      × IsBranch b
      × (contains (branch b) (commit (c ∷ o)) ≡ ok true)
contains-to_branch c [] h = absurd h
contains-to_branch c (d ∷ o) h =
    let (is_branch, on, len) = on_branch-take c d o h in
    let b = take (suc (length o)) (c ∷ d ∷ o) in
    (
      b,
      (unfold to_branch in refl),
      is_branch,
      contains-on_branch b (c ∷ d ∷ o) is_branch h ∙ rw on (ground (arith, len)),
    )

-- The commit is on the branch, or on the way to it: it ends, in a revision up to the one where the branch
-- goes on, or on the branch itself. The commit of no parts, which is read from `0`, is on every branch.
unfoldable pub is_on : List ℕ → List ℕ → Bool
is_on b [] = true
is_on (b ∷ []) (c ∷ s ∷ []) = c == b
is_on (b ∷ r ∷ bs) (c ∷ s ∷ []) = (c == b) && leb s r
is_on (b ∷ r ∷ bs) (c ∷ s ∷ d ∷ cs) = (c == b) && ((s == r) && is_on bs (d ∷ cs))
is_on _ _ = false

-- The commit is beside the branch: it goes along with it, leaves the way at an earlier revision than the
-- branch, and is no deeper and behind the branch nowhere from there on.
unfoldable pub is_beside : List ℕ → List ℕ → Bool
unfolding on_branch
is_beside (b ∷ r ∷ bs) (c ∷ s ∷ d ∷ cs) =
    (c == b)
    && ((ltb s r && (leb (length (d ∷ cs)) (length bs + 1) && on_branch bs (d ∷ cs)))
        || ((s == r) && is_beside bs (d ∷ cs)))
is_beside _ _ = false

on_branch-nil : (b : List ℕ) → on_branch b [] ≡ true
unfolding on_branch
on_branch-nil [] = refl
on_branch-nil (b ∷ []) = refl
on_branch-nil (b ∷ r ∷ bs) = refl

leb-suc : (m n : ℕ) → leb (suc (suc m)) (suc (suc n) + 1) ≡ leb m (n + 1)
leb-suc m n = ground arith

leb-ltb : (s r : ℕ) → leb s r ≡ (ltb s r || (s == r))
leb-ltb s r = ground arith

-- One step along both numbers: `agree` is the test of the branch numbers.
step_eq :
    (agree before same not_after within on is beside : Bool)
    → not_after ≡ (before || same)
    → (within && on) ≡ (is || beside)
    → (within && (agree && not_after && on))
      ≡ ((agree && (same && is)) || (agree && ((before && (within && on)) || (same && beside))))
step_eq false before same not_after true on is beside h k = refl
step_eq false before same not_after false on is beside h k = refl
step_eq true true true not_after within on is beside h k = rw h (ground arith)
step_eq true true false not_after within on is beside h k = rw h (ground arith)
step_eq true false true not_after within on is beside h k = rw h (ground arith)
step_eq true false false not_after within on is beside h k = rw h (ground arith)

on_branch-is_on :
    (b c : List ℕ)
    → IsBranch b
    → IsCommit c
    → (leb (length c) (length b + 1) && on_branch b c) ≡ (is_on b c || is_beside b c)
unfolding on_branch is_on is_beside
on_branch-is_on [] c hb hc = absurd hb
on_branch-is_on (b ∷ []) [] hb hc = ground arith
on_branch-is_on (b ∷ r ∷ bs) [] hb hc = ground arith
on_branch-is_on (b ∷ bs) (c ∷ []) hb hc = absurd hc
on_branch-is_on (b ∷ []) (c ∷ s ∷ []) hb hc = ground arith
on_branch-is_on (b ∷ []) (c ∷ s ∷ d ∷ cs) hb hc = ground arith
on_branch-is_on (b ∷ r ∷ bs) (c ∷ s ∷ []) hb hc = ground (arith, on_branch-nil bs)
on_branch-is_on (b ∷ r ∷ bs) (c ∷ s ∷ d ∷ cs) hb hc =
    ap (λ t. t && ((c == b) && leb s r && on_branch bs (d ∷ cs)))
      (leb-suc (length (d ∷ cs)) (length bs))
    ∙ step_eq (c == b) (ltb s r) (s == r) (leb s r) (leb (length (d ∷ cs)) (length bs + 1))
        (on_branch bs (d ∷ cs)) (is_on bs (d ∷ cs)) (is_beside bs (d ∷ cs)) (leb-ltb s r)
        (on_branch-is_on bs (d ∷ cs) hb hc)

-- For a branch and a commit, `contains` is true just of a commit that is on the branch or beside it.
pub contains-is_on :
    (b c : List ℕ)
    → IsBranch b
    → IsCommit c
    → contains (branch b) (commit c) ≡ ok (is_on b c || is_beside b c)
contains-is_on b c hb hc = contains-on_branch b c hb hc ∙ ap ok (on_branch-is_on b c hb hc)
