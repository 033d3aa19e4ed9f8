-- ===== src/Utils/Io.antt =====
-- utils/io.go: a file whose writer counts the bytes. `written` is what the writer has received.
-- A failed write ends the process, so only successful writes are modelled.
use gpbackup.Base.{ℕ, ◌+◌, ◌%◌, String, ◌<>◌, len, nat_comparable, string_comparable}
use gpbackup.Base.Words.{u64}

pub record FileWithByteCount : Type 0 where
  pub written : String
  pub byte_count : ℕ

unfoldable pub new_file_with_byte_count : FileWithByteCount
new_file_with_byte_count = record { written = ""; byte_count = 0 }

unfoldable pub must_print : FileWithByteCount → String → FileWithByteCount
must_print file s = record {
  written = file.written <> s;
  byte_count = (file.byte_count + len s) % u64;
}

unfoldable pub must_println : FileWithByteCount → String → FileWithByteCount
unfolding must_print
must_println file s = must_print file (s <> "\n")
