-- ===== src/Tests/Files.antt =====
-- The file writer: a line that is written, and a rotation whose rename fails.
use mathlib.Core.List.{flatten, Perm}
use dns_flow.Prelude.{
  ◌≡◌, ◌↔◌, ◌+◌, refl, codes, text_eq, true, false, Text, List, [], ◌∷◌, ◌++◌, Option, none, some,
  ◌⊎◌, inr, filter, take, drop, starts_with, ends_with, if◌then◌else◌, arith,
}
use dns_flow.Prelude.Int.{ℤ, pos, wrap_i64}
use dns_flow.Domain.{DnsRawEvent}
use dns_flow.File.{Config, Writer, Calls, rename_failed, rotate, write, backup_path, ext, ext_from}
use dns_flow.File.Size.{WithinLag, write-Sized}
use dns_flow.File.Lost.{write_later, rotate-write_later}
use dns_flow.File.Backups.{Segment, faultless}
use dns_flow.File.Sweep.{Directory, sweeps}
use dns_flow.File.Cleanup.Backup.{IsBackup}
use dns_flow.File.History.{Holds, cleanups_after, segments_after, write-Holds}
use dns_flow.File.Cleanup.{
  cleanup, removals, is_backup, sort_descending, max_age, base_name, base_from, skip_slashes,
  trim_suffix, contains_byte, leb_text, insert_descending,
}
use dns_flow.File.Cleanup.Sorted.{IsDescending}
use dns_flow.File.Cleanup.Oldest.{is_outdated, allowed, cleanup-Oldest}
use dns_flow.Prelude.Dict
use dns_flow.Tests.{query_event, other_event}

abbrev file_config : Config
file_config = record {
  path = codes "/var/log/dns.json";
  max_size_mb = pos 1;
  max_age_days = pos 7;
  max_backups = pos 3;
  compress = false;
}

abbrev encode_name : DnsRawEvent → Option Text
encode_name event = some event.dns.qname

abbrev plain_gzip : Text → Text
plain_gzip s = s

abbrev working : Calls
working = faultless

-- The disk is full after four bytes of the line.
abbrev disk_full : Calls
disk_full = record faultless { writes = false; partial = 4 }

abbrev no_rename : Calls
no_rename = record working { renames = false }

abbrev one_line : Writer
one_line = record {
  is_open = true;
  size = 2;
  files = (codes "/var/log/dns.json", codes "{}") ∷ [];
  cleanups = 0;
}

write-Sized_example :
    WithinLag plain_gzip file_config
      (codes "t1")
      (0 + 4)
      (write plain_gzip file_config (codes "t1") encode_name disk_full query_event one_line).0
unfolding Dict.lookup text_eq
write-Sized_example =
    write-Sized plain_gzip file_config (codes "t1") encode_name disk_full query_event 0 one_line
      (0, omega arith, inr refl)

abbrev later_calls : List (Text × Calls × DnsRawEvent)
later_calls = (codes "t2", working, other_event) ∷ []

rotate-write_later_example :
    let failed = rotate plain_gzip file_config (codes "t1") no_rename one_line in
    let after = write_later plain_gzip file_config encode_name later_calls failed.0 in
    (failed.1 ≡ some rename_failed)
    × (after.files ≡ one_line.files)
    × ((encode_name query_event ≡ none)
        ⊎ ((write plain_gzip file_config (codes "t3") encode_name working query_event after).1
            ≡ none))
rotate-write_later_example =
    rotate-write_later plain_gzip file_config encode_name (codes "t1") no_rename one_line
      later_calls (codes "t3") working query_event refl refl refl

-- A file that is kept whole, with its backups.
abbrev archive_config : Config
archive_config = record file_config { max_age_days = pos 0; max_backups = pos 0 }

-- A full file and an earlier backup.
abbrev full_writer : Writer
full_writer = record {
  is_open = true;
  size = 1048576;
  files =
      (codes "/var/log/dns.json", codes "{}") ∷ (codes "/var/log/dns.t0.json", codes "old") ∷ [];
  cleanups = 0;
}

abbrev earlier : List Segment
earlier = (record { stamp = codes "t0"; text = codes "old" }) ∷ []

full_writer-Holds : Holds plain_gzip archive_config (codes "old{}") earlier full_writer
unfolding Dict.lookup text_eq flatten backup_path ext ext_from
full_writer-Holds = record { on = refl; backups = (refl, tt); whole = refl }

abbrev in_log_dir : Text → Text
in_log_dir name = codes "/var/log/" ++ name

-- What the clean-up of the rotation finds.
abbrev log_dir : Directory
log_dir = record {
  entries = codes "dns.json" ∷ codes "dns.t0.json" ∷ codes "dns.t1.json" ∷ [];
  age = λ name. some (pos 691200000000000);
}

write-Holds_example :
    Holds plain_gzip archive_config
      (codes "old{}" ++ (codes "example.org." ++ 10 ∷ []))
      (segments_after plain_gzip archive_config (codes "t1") earlier full_writer)
      (sweeps in_log_dir archive_config
        (log_dir ∷ [])
        (write plain_gzip archive_config
          (codes "t1")
          encode_name
          faultless
          query_event
          full_writer).0)
    × ((write plain_gzip archive_config
          (codes "t1")
          encode_name
          faultless
          query_event
          full_writer).1
        ≡ none)
    × ((write plain_gzip archive_config
          (codes "t1")
          encode_name
          faultless
          query_event
          full_writer).0.cleanups
        ≡ cleanups_after plain_gzip archive_config (codes "t1") full_writer)
unfolding max_age wrap_i64
write-Holds_example =
    write-Holds plain_gzip archive_config (codes "t1") encode_name query_event
      (codes "example.org.") (codes "old{}") earlier full_writer in_log_dir (log_dir ∷ []) refl
      (refl, refl) full_writer-Holds (((λ e. ground arith), refl), tt)

-- The age of a file in nanoseconds: the first backup is eight days old.
abbrev age : Text → Option ℤ
age name =
    if text_eq name (codes "dns.20260101T000000Z.json") then some (pos 691200000000000) else none

-- The active file, three backups and another file.
abbrev entries : List Text
entries =
    codes "dns.20260101T000000Z.json"
    ∷ codes "dns.20260103T000000Z.json"
    ∷ codes "dns.20260102T000000Z.json"
    ∷ codes "dns.json"
    ∷ codes "other.log"
    ∷ []

cleanup-Oldest_example :
    (names : List Text) × IsDescending names
    × Perm names (filter (is_backup file_config) entries)
    × (cleanup file_config age entries
        ≡ filter (is_outdated file_config age) (take (allowed file_config age names) names)
          ++ drop (allowed file_config age names) names)
    × ((is_backup file_config (codes "dns.json") ≡ true) ↔ IsBackup file_config (codes "dns.json"))
cleanup-Oldest_example = cleanup-Oldest file_config age entries (codes "dns.json")

-- The active file takes one of the three places.
cleanup_run :
    (is_backup file_config (codes "dns.json") ≡ true)
    × (is_backup file_config (codes "other.log") ≡ false)
    × (cleanup file_config age entries ≡ codes "dns.20260101T000000Z.json" ∷ [])
unfolding cleanup removals is_backup sort_descending filter max_age base_name base_from skip_slashes
    trim_suffix contains_byte leb_text insert_descending ext ext_from text_eq starts_with ends_with
    wrap_i64
cleanup_run = (refl, refl, refl)
