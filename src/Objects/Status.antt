-- ===== src/Objects/Status.antt =====
-- src/api/handlers/object.rs: what the chunks of a written object say.
use s3prism.Base.{◌≡◌, true, List, map, Text, All, ◌⊎◌}
use s3prism.Metadata.Models.{ChunkInfo, ChunkStatus, confirmed, pending}
use s3prism.Fanout.{FanoutResult, PutTarget, GetTarget}
use s3prism.Objects.{succeeded, get_target}

-- Where a write request goes, as a read request.
abbrev pub place : PutTarget → GetTarget
place t = record { site = t.site; bucket = t.bucket; key = t.key }

-- A chunk is confirmed only if one of the answers is a success of its site, and else pending.
abbrev pub IsRecordedAs : List (FanoutResult (Unit {0})) → Text → ChunkStatus → Type 0
IsRecordedAs arrivals site status =
    ((status ≡ confirmed) × (succeeded arrivals site ≡ true)) ⊎ (status ≡ pending)

abbrev pub IsRecorded : List (FanoutResult (Unit {0})) → ChunkInfo → Type 0
IsRecorded arrivals c = IsRecordedAs arrivals c.site c.status

-- What a write leaves in the metadata: a read of the object asks for its chunks exactly where the
-- write has sent them, and the chunks are recorded as the answers say.
abbrev pub IsPlaced : List PutTarget → List (FanoutResult (Unit {0})) → List ChunkInfo → Type 0
IsPlaced targets arrivals chunks =
    (map get_target chunks ≡ map place targets) × All (IsRecorded arrivals) chunks
