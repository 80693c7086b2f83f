-- ===== src/RateLimit/SortedSet.antt =====
-- The Redis sorted sets that backend/internal/ratelimit/limiter.go uses, as an interface: Redis is
-- not part of the repository. The laws are the documented behaviour of the four commands.
use sobhemessenger.Common.{
  ℕ, ◌≡◌, refl, Bool, false, Option, none, some, List, [], ◌∷◌, length, leb, ltb, ◌==◌,
  if◌then◌else◌, ◌||◌,
}

-- A score and a member.
pub record Entry : Type 0 where
  pub score : ℕ
  pub member : ℕ

-- ZREMRANGEBYSCORE key -inf max, on the entries.
unfoldable pub after : ℕ → List Entry → List Entry
after max [] = []
after max (e ∷ es) = let rest = after max es in if leb e.score max then rest else e ∷ rest

-- The order of a set is by score.
unfoldable pub place : Entry → List Entry → List Entry
place e [] = e ∷ []
place e (f ∷ fs) = let rest = place e fs in if ltb e.score f.score then e ∷ f ∷ fs else f ∷ rest

unfoldable pub has_member : ℕ → List Entry → Bool
has_member m [] = false
has_member m (e ∷ es) = (e.member == m) || has_member m es

abbrev pub first_score : List Entry → Option ℕ
first_score [] = none
first_score (e ∷ es) = some e.score

pub record SortedSet : Type 1 where
  pub Z : Type 0
  pub empty : Z
  pub zremrangebyscore : ℕ → Z → Z
  pub zcard : Z → ℕ
  pub zrange_first : Z → Option ℕ
  pub zadd : ℕ → ℕ → Z → Z
  -- ZRANGE key 0 -1 WITHSCORES
  pub entries : Z → List Entry
  pub entries-empty : entries empty ≡ []
  pub entries-zremrangebyscore :
      (max : ℕ) (z : Z) → entries (zremrangebyscore max z) ≡ after max (entries z)
  pub zcard_lem : (z : Z) → zcard z ≡ length (entries z)
  pub zrange_first_lem : (z : Z) → zrange_first z ≡ first_score (entries z)
  -- of a member that the set does not hold
  pub entries-zadd :
      (s m : ℕ) (z : Z)
      → has_member m (entries z) ≡ false
      → entries (zadd s m z) ≡ place (record { score = s; member = m }) (entries z)

-- A set that is the list of its entries meets the laws.
unfoldable pub list_set : SortedSet
list_set = record {
  Z = List Entry;
  empty = [];
  zremrangebyscore = after;
  zcard = length;
  zrange_first = first_score;
  zadd = λ s m es. place (record { score = s; member = m }) es;
  entries = λ es. es;
  entries-empty = refl;
  entries-zremrangebyscore = λ max z. refl;
  zcard_lem = λ z. refl;
  zrange_first_lem = λ z. refl;
  entries-zadd = λ s m z h. refl;
}
