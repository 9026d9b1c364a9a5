-- ===== src/Runtimes/Created.antt =====
-- A connection that was created is what is read back.
use capcom.Prelude.{map}
use capcom.Domain.Runtime.{RuntimeConnection, Time}
use capcom.Runtimes.Repository.{inserted, in_columns}

-- The row that was inserted, with its route, with times as exact as the columns keep them.
abbrev pub stored : (Time → Time) → RuntimeConnection → RuntimeConnection
stored column_time conn = record (inserted column_time conn) {
  endpoints = map (in_columns column_time) conn.endpoints;
}
