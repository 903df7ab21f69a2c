-- ===== src/Protocol.antt =====
-- The messages of internal/protocol/types.go.
use prosiak.Base.{ℕ, ℤ, Text, List}

-- The two values that the program gives to the field Status.
pub data Status : Type 0 where
  online offline : Status

pub record NodeRegisterRequest : Type 0 where
  pub id : Text
  pub address : Text
  pub capacity : ℤ
  pub free : ℤ

-- Times stand in seconds, the resolution of RFC 3339 without fractions.
pub record NodeInfo : Type 0 where
  pub id : Text
  pub address : Text
  pub capacity : ℤ
  pub free : ℤ
  pub last_seen : ℕ
  pub status : Status

pub record ChunkRef : Type 0 where
  pub index : ℤ
  pub hash : Text
  pub size : ℤ

-- The columns of the table `files`, which are the fields of FileManifest that it stores.
pub record FileRow : Type 0 where
  pub id : Text
  pub name : Text
  pub backup_name : Text
  pub version : ℕ
  pub retention : ℕ
  pub size : ℤ
  pub chunk_size : ℤ
  pub replication : ℕ
  pub dedup_new_bytes : ℤ
  pub dedup_reused_bytes : ℤ
  pub created_at : ℕ

-- FileManifest, but for the ratio of two of its fields, a float.
pub record FileManifest : Type 0 where
  pub row : FileRow
  pub open row use *
  pub chunk_count : ℕ
  pub chunks : List ChunkRef
  pub retention_deleted : List Text

pub record CreateFileRequest : Type 0 where
  pub name : Text
  pub backup_name : Text
  pub retention : ℤ
  pub size : ℤ
  pub chunk_size : ℤ
  pub replication : ℤ
  pub dedup_new_bytes : ℤ
  pub dedup_reused_bytes : ℤ
  pub chunks : List ChunkRef

pub record ChunkPlanRequest : Type 0 where
  pub hash : Text
  pub size : ℤ
  pub replication : ℤ

pub record ChunkPlanResponse : Type 0 where
  pub hash : Text
  pub nodes : List NodeInfo

pub record ChunkConfirmRequest : Type 0 where
  pub hash : Text
  pub size : ℤ
  pub node_id : Text

pub data Health : Type 0 where
  healthy missing degraded extra : Health

pub record ChunkAvailability : Type 0 where
  pub index : ℤ
  pub hash : Text
  pub size : ℤ
  pub desired : ℕ
  pub active : ℕ
  pub total : ℕ
  pub status : Health
  pub locations : List NodeInfo

-- The fields that FileAvailability copies from the manifest are the columns of its row.
pub record FileAvailability : Type 0 where
  pub row : FileRow
  pub open row use *
  pub chunks : List ChunkAvailability
