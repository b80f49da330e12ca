-- ===== src/RunLoop/Lru/Recency.antt =====
-- The runs that the map holds are those that were used last.
use satan_attrd.Prelude.{ℕ, String, List, [], ◌∷◌, ◌++◌, ◌≡◌, ◌⊎◌, length, if◌then◌else◌}
use satan_attrd.RunLoop.Lru.{LruCounterMap, get_or_create}
use satan_attrd.RunLoop.Lru.Lists.{mem, without}
use satan_attrd.RunLoop.Lru.LastUse.{by_last_use}

-- A map after the uses of some runs.
abbrev pub used : LruCounterMap → List String → LruCounterMap
used m [] = m
used m (k ∷ ks) = used (get_or_create m k).0 ks

-- The order of the map is the end of the runs by last use: all of them, or as many as fit.
abbrev pub IsRecent : ℕ → List String → LruCounterMap → Type 0
IsRecent cap us m =
    (m.cap ≡ cap)
    × (older : List String) × (by_last_use us ≡ older ++ m.order)
    × ((older ≡ []) ⊎ (length m.order ≡ cap))

-- The runs that are no longer held, where a new run is used.
abbrev left_out : String → List String → List String
left_out k older = if mem k older then without k older else older
