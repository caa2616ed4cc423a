-- ===== src/Tests/Data.antt =====
-- The inputs of the tests.
use causalclock.Base.{pos, Str, some, [], ◌∷◌, refl}
use causalclock.Clock.Types.{Clock}
use causalclock.Counter.{int64, uint64}
use causalclock.Counters.Changes.{new-IsValid, set-IsValid}
use causalclock.Counters.Defs.{new, set}
use causalclock.Counters.Spec.{IsValid}
use causalclock.Version.Vector.{VersionVector}

abbrev pub node_a : Str
node_a = b'a' ∷ []

abbrev pub node_b : Str
node_b = b'b' ∷ []

-- {a:2}
abbrev pub clock_a : Clock
clock_a = set int64 (new int64 []) node_a (pos 2)

-- {b:1}
abbrev pub clock_b : Clock
clock_b = set int64 (new int64 []) node_b (pos 1)

-- {a:2, b:1}
abbrev pub clock_ab : Clock
clock_ab = set int64 clock_a node_b (pos 1)

-- {b:1, a:2}, with the entries in the other order.
abbrev pub clock_ba : Clock
clock_ba = set int64 clock_b node_a (pos 2)

-- {a:3, b:1}
abbrev pub clock_a3b : Clock
clock_a3b = set int64 clock_ab node_a (pos 3)

pub IsValid-a : IsValid int64 (some clock_a)
IsValid-a = set-IsValid int64 (new int64 []) node_a (pos 2) (new-IsValid int64 []) refl

pub IsValid-b : IsValid int64 (some clock_b)
IsValid-b = set-IsValid int64 (new int64 []) node_b (pos 1) (new-IsValid int64 []) refl

pub IsValid-ab : IsValid int64 (some clock_ab)
IsValid-ab = set-IsValid int64 clock_a node_b (pos 1) IsValid-a refl

pub IsValid-ba : IsValid int64 (some clock_ba)
IsValid-ba = set-IsValid int64 clock_b node_a (pos 2) IsValid-b refl

pub IsValid-a3b : IsValid int64 (some clock_a3b)
IsValid-a3b = set-IsValid int64 clock_ab node_a (pos 3) IsValid-ab refl

-- {a:2} and {a:2, b:1} as version vectors.
abbrev pub vector_a : VersionVector
vector_a = set uint64 (new uint64 []) node_a 2

abbrev pub vector_ab : VersionVector
vector_ab = set uint64 vector_a node_b 1
