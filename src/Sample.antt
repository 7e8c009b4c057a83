-- ===== src/Sample.antt =====
-- src/shd_sample.c: reads and writes in a slot, and comparisons of its timestamp with a date.
-- `none` is a copy that would leave the slot, or a source that is too short.
use libshdata.Common.{
  ℕ, ◌+◌, List, ◌++◌, Option, none, some, ◌&&◌, not, leb, if◌then◌else◌, length, take, drop,
}
use libshdata.Common.Int.{ℤ, is_neg, nat_part}
use libshdata.Types.{Timespec, SampleMetadata, Sample}
use libshdata.TimeTools.{TimeTools}

-- `memcpy` from the blob of a slot, `offset` bytes behind its start; a negative offset leaves the blob
unfoldable pub sample_read_blob : Sample → ℤ → ℕ → Option (List ℕ)
sample_read_blob sample offset len =
    if not (is_neg offset) && leb (nat_part offset + len) (length sample.blob)
    then some (take len (drop (nat_part offset) sample.blob))
    else none

-- `memcpy` of the whole metadata of a slot
unfoldable pub sample_read_metadata : Sample → Option SampleMetadata
sample_read_metadata sample = some sample.metadata

unfoldable pub sample_write_blob : Sample → ℤ → List ℕ → ℕ → Option Sample
sample_write_blob sample offset src len =
    if not (is_neg offset)
      && leb (nat_part offset + len) (length sample.blob)
      && leb len (length src)
    then some (record sample {
      blob =
          take (nat_part offset) sample.blob
          ++ (take len src ++ drop (nat_part offset + len) sample.blob);
    })
    else none

unfoldable pub sample_write_metadata : Sample → SampleMetadata → Sample
sample_write_metadata sample metadata = record sample { metadata = metadata }

module _ (tools : TimeTools) where
  unfoldable pub sample_timestamp_cmp : Sample → Timespec → ℤ
  sample_timestamp_cmp sample date = tools.cmp sample.metadata.ts date

  unfoldable pub sample_closest_timestamp : Sample → Sample → Timespec → ℤ
  sample_closest_timestamp before after date =
      let (ret, duration_before) = tools.diff before.metadata.ts date in
      if is_neg ret
      then ret
      else let (ret', duration_after) = tools.diff date after.metadata.ts in
        if is_neg ret' then ret' else tools.cmp duration_after duration_before
