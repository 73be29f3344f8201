-- ===== src/Loading/Progressive/Fetching.antt =====
-- What a load fetches, told without the loops: which loaders ran, in which order and on which world.
use harp_ochestration.Prelude.{
  ℕ, ◌+◌, String, List, [], ◌∷◌, ◌++◌, Option, none, some, ◌≡◌, refl, ap, arith, insert, string_eq,
}
use harp_ochestration.Core.Errors.{HarpError, Result, ok, err}
use harp_ochestration.Observability.{Telemetry, Span}
use harp_ochestration.Loading.Progressive.{Loading, after_piece, load_piece}

-- A result and the world, without the telemetry between them.
abbrev pub told : {A W : Type 0} → A × Option Telemetry × W → A × W
told (a, obs, w) = (a, w)

module _ {A : Type 0} where
  -- What is kept of pieces that come one after another: of one id, the last.
  abbrev pub kept : List (String × A) → List (String × A) → List (String × A)
  kept [] before = before
  kept ((id, a) ∷ more) before = kept more (insert id a before)

  abbrev pub total : (A → ℕ) → List (String × A) → ℕ
  total cost_of [] = 0
  total cost_of ((id, a) ∷ more) = cost_of a + total cost_of more

module _ {A W : Type 0} (loader_of : String → Option (String → W → Result A × W)) where
  -- The ids in order, each on the world that the one before it has left: an id without a loader is
  -- passed over, every other is loaded. The pieces in order, and the world in the end.
  pub data Fetches : List String → W → List (String × A) → W → Type 0 where
    nothing : {w : W} → Fetches [] w [] w
    unknown :
        {id : String} {ids : List String} {w u : W} {pieces : List (String × A)}
        → loader_of id ≡ none
        → Fetches ids w pieces u
        → Fetches (id ∷ ids) w pieces u
    fetches :
        {id : String} {ids : List String} {w v u : W} {pieces : List (String × A)}
        (loader : String → W → Result A × W) (a : A)
        → loader_of id ≡ some loader
        → loader id w ≡ (ok a, v)
        → Fetches ids v pieces u
        → Fetches (id ∷ ids) w ((id, a) ∷ pieces) u

  -- A loader throws, and none of the ids behind it is tried.
  pub data Fails (ids : List String) (w : W) (e : HarpError) (u : W) : Type 0 where
    throws :
        (good : List String) (bad : String) (later : List String) (pieces : List (String × A))
        (v : W) (loader : String → W → Result A × W)
        → ids ≡ good ++ bad ∷ later
        → Fetches good w pieces v
        → loader_of bad ≡ some loader
        → loader bad v ≡ (err e, u)
        → Fails ids w e u

  module _ (cost_of : A → ℕ) where
    -- What a loop comes to that starts with some pieces and a cost.
    pub data Fetched (before : List (String × A)) (cost : ℕ) (ids : List String) (w : W)
        : Result (List (String × A) × ℕ) × W → Type 0 where
      ends :
          {m : List (String × A)} {n : ℕ} {u : W} (pieces : List (String × A))
          → Fetches ids w pieces u
          → m ≡ kept pieces before
          → n ≡ cost + total cost_of pieces
          → Fetched before cost ids w (ok (m, n), u)
      fails : {e : HarpError} {u : W} → Fails ids w e u → Fetched before cost ids w (err e, u)

    skip-Fetched :
        (before : List (String × A)) (cost : ℕ) (id : String) (ids : List String) (w : W)
        (x : Result (List (String × A) × ℕ) × W)
        → loader_of id ≡ none
        → Fetched before cost ids w x
        → Fetched before cost (id ∷ ids) w x
    skip-Fetched before cost id ids w x h (ends pieces run m n) = ends pieces (unknown h run) m n
    skip-Fetched before cost id ids w x h
          (fails (throws good bad later pieces v l split run at out)) =
        fails (throws (id ∷ good) bad later pieces v l (ap (◌∷◌ id) split) (unknown h run) at out)

    next-Fetched :
        (before : List (String × A)) (cost : ℕ) (id : String) (ids : List String) (w v : W)
        (loader : String → W → Result A × W) (a : A) (x : Result (List (String × A) × ℕ) × W)
        → loader_of id ≡ some loader
        → loader id w ≡ (ok a, v)
        → Fetched (insert id a before) (cost + cost_of a) ids v x
        → Fetched before cost (id ∷ ids) w x
    next-Fetched before cost id ids w v loader a x h given (ends pieces run m n) =
        ends ((id, a) ∷ pieces) (fetches loader a h given run) m (omega (arith, n))
    next-Fetched before cost id ids w v loader a x h given
          (fails (throws good bad later pieces v' l split run at out)) =
        fails (
          throws (id ∷ good) bad later ((id, a) ∷ pieces) v' l (ap (◌∷◌ id) split)
            (fetches loader a h given run) at out)

    after-Fetched :
        (before : List (String × A)) (cost : ℕ) (id : String) (ids : List String)
        (obs : Option Telemetry) (w : W) (loader : String → W → Result A × W)
        (answer : Result A × W) (rest : List (String × A) → ℕ → Option Telemetry → W → Loading W A)
        → loader_of id ≡ some loader
        → loader id w ≡ answer
        → ((m : List (String × A)) (n : ℕ) (t : Option Telemetry) (v : W)
            → Fetched m n ids v (told (rest m n t v)))
        → Fetched before cost
            (id ∷ ids)
            w
            (told (after_piece id cost_of before cost obs answer rest))
    unfolding after_piece
    after-Fetched before cost id ids obs w loader (err e, v) rest h given k =
        fails (throws [] id ids [] w loader refl nothing h given)
    after-Fetched before cost id ids obs w loader (ok a, v) rest h given k =
        next-Fetched before cost id ids w v loader a _ h given (k _ _ obs v)

    pub piece-Fetched :
        (before : List (String × A)) (cost : ℕ) (id : String) (ids : List String) (missing : String)
        (found : Option (String → W → Result A × W)) (span : Option Span) (obs : Option Telemetry)
        (w : W) (rest : List (String × A) → ℕ → Option Telemetry → W → Loading W A)
        → loader_of id ≡ found
        → ((m : List (String × A)) (n : ℕ) (t : Option Telemetry) (v : W)
            → Fetched m n ids v (told (rest m n t v)))
        → Fetched before cost
            (id ∷ ids)
            w
            (told (load_piece id cost_of missing found span before cost obs w rest))
    unfolding load_piece
    piece-Fetched before cost id ids missing none span obs w rest h k =
        skip-Fetched before cost id ids w _ h (k before cost _ w)
    piece-Fetched before cost id ids missing (some loader) span obs w rest h k =
        after-Fetched before cost id ids obs w loader (loader id w) rest h refl k
