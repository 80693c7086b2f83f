-- ===== src/Polls/Tally.antt =====
-- Counts of ballots, before and after one is taken back or recorded.
use sobhemessenger.Common.{
  ℕ, ◌+◌, ◌≤◌, ◌≡◌, refl, false, not, ◌&&◌, Uuid, List, [], ◌∷◌, ◌++◌, ◌==◌, if◌then◌else◌, arith,
  bit, any, contains, count, count_if, length, add, Bool-cases, inl, inr, eq_of_beq,
}
use sobhemessenger.Common.Lists.Counting.{any-count_if}
use sobhemessenger.Common.Lists.Rows.{filter_if}
use sobhemessenger.Common.Lists.Sets.{length-add, contains-count}
use sobhemessenger.Polls.Poll.{Vote, is_by, is_for, ballot}

abbrev pub votes_for : Uuid → List Vote → ℕ
votes_for o = count_if (is_for o)

abbrev pub votes_by : Uuid → List Vote → ℕ
votes_by u = count_if (is_by u)

abbrev pub votes_by_for : Uuid → Uuid → List Vote → ℕ
votes_by_for u o = count_if (λ v. is_by u v && is_for o v)

-- The users with a ballot, each once.
unfoldable pub voters_of : List Vote → List Uuid
voters_of [] = []
voters_of (v ∷ vs) = add v.user_id (voters_of vs)

abbrev pub others : Uuid → List Vote → List Vote
others u = filter_if (λ v. not (is_by u v))

pub votes_for-others :
    (u o : Uuid) (vs : List Vote) → votes_for o (others u vs) + votes_by_for u o vs ≡ votes_for o vs
unfolding filter_if
votes_for-others u o [] = refl
votes_for-others u o (v ∷ vs) = ground (arith, votes_for-others u o vs)

-- The others' votes stay, and the user has none.
pub votes_by_for-others :
    (u w o : Uuid) (vs : List Vote)
    → votes_by_for w o (others u vs) ≡ (if w == u then 0 else votes_by_for w o vs)
unfolding filter_if
votes_by_for-others u w o [] = ground arith
votes_by_for-others u w o (v ∷ vs) = ground (arith, votes_by_for-others u w o vs)

pub votes_by-others :
    (u w : Uuid) (vs : List Vote) → votes_by w (others u vs) ≡ (if w == u then 0 else votes_by w vs)
unfolding filter_if
votes_by-others u w [] = ground arith
votes_by-others u w (v ∷ vs) = ground (arith, votes_by-others u w vs)

module _ (u : Uuid) where
  pub votes_for-ballot :
      (o : Uuid) (os : List Uuid) (vs : List Vote)
      → votes_for o (ballot u os ++ vs) ≡ count o os + votes_for o vs
  unfolding ballot count
  votes_for-ballot o [] vs = omega arith
  votes_for-ballot o (x ∷ os) vs = ground (arith, votes_for-ballot o os vs)

  pub votes_by_for-ballot :
      (w o : Uuid) (os : List Uuid) (vs : List Vote)
      → votes_by_for w o (ballot u os ++ vs)
        ≡ (if u == w then count o os else 0) + votes_by_for w o vs
  unfolding ballot count
  votes_by_for-ballot w o [] vs = ground arith
  votes_by_for-ballot w o (x ∷ os) vs = ground (arith, votes_by_for-ballot w o os vs)

  pub votes_by-ballot :
      (w : Uuid) (os : List Uuid) (vs : List Vote)
      → votes_by w (ballot u os ++ vs) ≡ (if u == w then length os else 0) + votes_by w vs
  unfolding ballot
  votes_by-ballot w [] vs = ground arith
  votes_by-ballot w (x ∷ os) vs = ground (arith, votes_by-ballot w os vs)

-- Membership among the voters is a vote.
pub contains-voters : (u : Uuid) (vs : List Vote) → contains u (voters_of vs) ≡ any (is_by u) vs
unfolding voters_of add contains
contains-voters u [] = refl
contains-voters u (v ∷ vs) = ground (arith, contains-voters u vs)

pub any-others :
    (u w : Uuid) (vs : List Vote)
    → any (is_by w) (others u vs) ≡ (if w == u then false else any (is_by w) vs)
any-others u w vs =
    ground (
      arith,
      any-count_if (is_by w) (others u vs),
      any-count_if (is_by w) vs,
      votes_by-others u w vs,
    )

pub voters-others :
    (u : Uuid) (vs : List Vote)
    → length (voters_of (others u vs)) + bit (any (is_by u) vs) ≡ length (voters_of vs)
unfolding filter_if voters_of
voters-others u [] = refl
voters-others u (v ∷ vs) = ground (
  arith,
  voters-others u vs,
  length-add v.user_id (voters_of vs),
  length-add v.user_id (voters_of (others u vs)),
  contains-voters v.user_id vs,
  contains-voters v.user_id (others u vs),
  any-others u v.user_id vs,
)

pub voters-ballot :
    (u o : Uuid) (os : List Uuid) (vs : List Vote)
    → any (is_by u) vs ≡ false
    → length (voters_of (ballot u (o ∷ os) ++ vs)) ≡ length (voters_of vs) + 1
unfolding ballot voters_of
voters-ballot u o [] vs new = ground (arith, new, length-add u (voters_of vs), contains-voters u vs)
voters-ballot u o (x ∷ os) vs new = ground (
  arith,
  voters-ballot u x os vs new,
  length-add u (voters_of (ballot u (x ∷ os) ++ vs)),
  contains-voters u (ballot u (x ∷ os) ++ vs),
)

-- A ballot names at most as many distinct options as it has entries; where it names as many, no entry
-- is there twice.
abbrev pub named : List Uuid → List Uuid → ℕ
named xs ds = count_if (λ d. contains d xs) ds

named-cons :
    (x : Uuid) (xs ds : List Uuid)
    → named (x ∷ xs) ds + (if contains x xs then count x ds else 0) ≡ count x ds + named xs ds
unfolding contains count
named-cons x xs [] = ground arith
named-cons x xs (d ∷ ds) = elim (Bool-cases (d == x)) [
  | inl same ↦ let e : d ≡ x = eq_of_beq d x same in rw e (ground (arith, named-cons x xs ds))
  | inr other ↦ ground (arith, other, named-cons x xs ds)
]

named-nil : (ds : List Uuid) → named [] ds ≡ 0
unfolding contains
named-nil [] = refl
named-nil (d ∷ ds) = ground (arith, named-nil ds)

module _ (ds : List Uuid) (distinct : (k : Uuid) → count k ds ≤ 1) where
  named-le-length : (xs : List Uuid) → named xs ds ≤ length xs
  named-le-length [] = omega (arith, named-nil ds)
  named-le-length (x ∷ xs) = ground (arith, named-le-length xs, named-cons x xs ds, distinct x)

  pub named-exact : (xs : List Uuid) → named xs ds ≡ length xs → (k : Uuid) → count k xs ≤ 1
  unfolding count
  named-exact [] h k = omega arith
  named-exact (x ∷ xs) h k =
      let bound : named xs ds ≤ length xs = named-le-length xs in
      let full : named xs ds ≡ length xs =
        ground (arith, h, bound, named-cons x xs ds, distinct x) in
      let new : contains x xs ≡ false = ground (arith, h, bound, named-cons x xs ds, distinct x) in
      ground (arith, named-exact xs full k, new, contains-count x xs, eq_of_beq x k)
