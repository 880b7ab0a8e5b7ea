-- ===== src/Fix/Builder/Tests.antt =====
-- Runs of the builder.
use fast_little_market.Common.{ℕ, ◌≡◌, ◌≤◌, refl, [], ◌∷◌, ◌++◌, length, none, some, arith}
use fast_little_market.Fix.Alloc.{Buffer, new_buffer, allocate}
use fast_little_market.Fix.Decimal.{Bytes, digits, to_chars, then_digit}
use fast_little_market.Fix.Tags.Table.{codes, at}
use fast_little_market.Fix.Tags.Fields.{msg_type_tag}
use fast_little_market.Fix.Tags.Convert.{ftof}
use fast_little_market.Fix.Builder.State.{Builder, written}
use fast_little_market.Fix.Builder.Clock.{Time, write_time_text}
use fast_little_market.Fix.Builder.{
  soh, body_len_width, zeros, checksum_text, sum_bytes, add_field, add_field_int, add_field_char,
  add_time, build, append, appended, new_builder, check_capacity, write, write_char, write_int,
  write_tag, write_soh, write_time, account_body, backfill_body_length, write_checksum, overwrite,
}
use fast_little_market.Fix.Builder.Frame.{IsOpen, header}
use fast_little_market.Fix.Builder.Closing.{build-no_soh}
use fast_little_market.Fix.Builder.Capacity.{Fits, Leaves, operations-Fit}
use fast_little_market.Fix.Builder.Append.{append-Moved}

abbrev small : Buffer
small = record { offset = 64; bytes_allocated = 64; capacity = 128 }

-- A new builder of 64 bytes, and one that is reset and holds the field 35=D.
abbrev fresh : Builder
fresh = record {
  max_message_size = 64;
  buf = small;
  message = [];
  body_start = none;
  body_len_dst = none;
  body_length = 0;
}

abbrev opened : Bytes → Builder
opened body = record {
  max_message_size = 64;
  buf = small;
  message = header (zeros body_len_width) ++ body;
  body_start = some 19;
  body_len_dst = some 12;
  body_length = length body;
}

abbrev one_field : Bytes
one_field = codes "35=D" ++ (soh ∷ [])

abbrev noon : Time
noon = record {
  tm_year = 124;
  tm_mon = 1;
  tm_mday = 29;
  tm_hour = 12;
  tm_min = 0;
  tm_sec = 5;
  tv_usec = 7000;
}

fresh-new : new_builder 64 ≡ some fresh
unfolding new_builder allocate new_buffer
fresh-new = refl

noon-text : write_time_text noon ≡ codes "20240229-12:00:05.007"
unfolding write_time_text
noon-text = refl

opened-IsOpen : (body : Bytes) → IsOpen body (opened body)
opened-IsOpen body = record { framed = refl; starts = refl; dst = refl; counted = refl }

built :
    build (opened one_field)
    ≡ written (record (opened one_field) {
      message = header (codes "000005") ++ one_field ++ codes "10=0164";
    })
unfolding build backfill_body_length overwrite digits then_digit write_checksum check_capacity
    checksum_text sum_bytes
built = refl

build-no_soh_example :
    (m : Bytes) × (d : ℕ) × (header (codes "000005") ++ one_field ++ codes "10=0164"
      ≡ m ++ (d ∷ []))
    × (b'0' ≤ d)
    × (d ≤ b'9')
build-no_soh_example =
    build-no_soh (opened one_field)
      (record (opened one_field) {
        message = header (codes "000005") ++ one_field ++ codes "10=0164";
      })
      built

operations-Fit_example :
    Leaves (Fits 64) (add_field msg_type_tag (codes "D") (opened []))
    × Leaves (Fits 64) (add_field_int msg_type_tag 5 (opened []))
    × Leaves (Fits 64) (add_field_char msg_type_tag b'D' (opened []))
    × Leaves (Fits 64) (add_time msg_type_tag noon (opened []))
    × Leaves (Fits 64) (build (opened []))
operations-Fit_example =
    operations-Fit 64 msg_type_tag 5 b'D' (codes "D") noon (opened [])
      (record { size = refl; inside = omega arith })

append-Moved_example :
    (c : Builder) × (src : Builder) × (append (record fresh { message = one_field }) (opened [])
      ≡ appended c src)
    × IsOpen ([] ++ one_field) c
    × IsOpen [] src
append-Moved_example =
    append-Moved (record fresh { message = one_field }) (opened []) [] (opened-IsOpen [])
      (omega arith) (omega arith) (omega arith)

text_added : add_field msg_type_tag (codes "D") (opened []) ≡ written (opened one_field)
unfolding add_field write_tag write write_char write_soh check_capacity account_body ftof at
text_added = refl

int_added : add_field_int msg_type_tag 5 (opened []) ≡ written (opened (codes "35=5" ++ (soh ∷ [])))
unfolding add_field_int write_int to_chars digits then_digit write_tag write write_char write_soh
    check_capacity account_body ftof at
int_added = refl

char_added : add_field_char msg_type_tag b'D' (opened []) ≡ written (opened one_field)
unfolding add_field_char write_tag write write_char write_soh check_capacity account_body ftof at
char_added = refl

time_added :
    add_time msg_type_tag noon (opened [])
    ≡ written (opened (codes "35=20240229-12:00:05.007" ++ (soh ∷ [])))
unfolding add_time write_time write_time_text write_tag write write_char write_soh check_capacity
    account_body ftof at
time_added = refl
