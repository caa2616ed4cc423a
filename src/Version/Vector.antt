-- ===== src/Version/Vector.antt =====
-- The type and the methods of `version/vector.go`.
use causalclock.Base.{ℕ, Str, Bool, Option, List}
use causalclock.Counter.{uint64}
use causalclock.Counters.Comparison.{Comparison}
use causalclock.Counters.Compare
use causalclock.Counters.Defs
use causalclock.Counters.Defs.{Counters}
use causalclock.Counters.Listing

-- `ReplicaID`
abbrev pub ReplicaId : Type 0
ReplicaId = Str

-- `VersionVector`
abbrev pub VersionVector : Type 0
VersionVector = Counters ℕ

unfoldable pub new_version_vector : List ReplicaId → VersionVector
new_version_vector = Defs.new uint64

unfoldable pub copy : Option VersionVector → VersionVector
copy = Defs.copy uint64

unfoldable pub increment : VersionVector → ReplicaId → VersionVector × ℕ
increment = Defs.increment uint64

unfoldable pub get : Option VersionVector → ReplicaId → ℕ
get = Defs.get uint64

unfoldable pub set : VersionVector → ReplicaId → ℕ → VersionVector
set = Defs.set uint64

unfoldable pub merge : VersionVector → Option VersionVector → VersionVector
merge = Defs.merge uint64

unfoldable pub compare : Option VersionVector → Option VersionVector → Comparison
compare = Compare.compare uint64

unfoldable pub replicas : Option VersionVector → List ReplicaId
replicas = Listing.nodes

unfoldable pub len : Option VersionVector → ℕ
len = Listing.len

unfoldable pub is_empty : Option VersionVector → Bool
is_empty = Listing.is_empty uint64

unfoldable pub string : Option VersionVector → Str
string = Listing.string uint64

unfoldable pub equal : Option VersionVector → Option VersionVector → Bool
equal = Compare.equal uint64

unfoldable pub happened_before : Option VersionVector → Option VersionVector → Bool
happened_before = Compare.happened_before uint64

unfoldable pub happened_after : Option VersionVector → Option VersionVector → Bool
happened_after = Compare.happened_after uint64

unfoldable pub concurrent : Option VersionVector → Option VersionVector → Bool
concurrent = Compare.concurrent uint64

unfoldable pub descends : Option VersionVector → Option VersionVector → Bool
descends = Compare.descendant uint64

unfoldable pub dominates : Option VersionVector → Option VersionVector → Bool
dominates vv other = happened_after vv other

unfoldable pub is_dominated_by : Option VersionVector → Option VersionVector → Bool
is_dominated_by vv other = happened_before vv other
