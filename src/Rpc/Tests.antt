-- ===== src/Rpc/Tests.antt =====
-- Runs of the RPC model, and instances of its theorems.
use elio.Prelude.{
  ℕ, ◌+◌, ◌-◌, ◌≤◌, ◌≡◌, refl, inl, inr, some, true, List, [], ◌∷◌, ◌++◌, length, arith, ltb, leb,
  if◌then◌else◌, ◌^◌, ◌<◌, All, ◌↔◌, ◌≢◌,
}
use elio.Rpc.Buffer.{
  BufferView, Span, skip, read_string, write, skip_past_end, view, read, read_le, read_counted,
  write_le, write_string, write_blob, write_bytes,
}
use elio.Rpc.Buffer.Words.{Fits, IsAt}
use elio.Rpc.Buffer.Fields.{
  Field, kinds_of, write_field, word, string, blob, IsField, encoded, all_encoded, write_fields,
  read_fields, read_fields-write_fields,
}
use elio.Rpc.Buffer.Bounds.{IsValid, IsSpanOf, read_string-IsSpanOf, skip_lem}
use elio.Rpc.Buffer.Reader.{
  Call, seeks, reads, reads_string, skips, IsSized, after, run, run-IsValid,
}
use elio.Rpc.Protocol.{FrameHeader, serialize, deserialize, is_valid, next}
use elio.Rpc.Protocol.Header.{IsHeader, deserialize-serialize}
use elio.Rpc.Protocol.Valid.{IsShaped, is_valid_iff}
use elio.Rpc.Protocol.Build.{
  with_written, frame_of, build_request, with_size, validate_payload_size, timeout_flag,
  timeout_bytes, checksum_flag, parse_request,
}
use elio.Rpc.Protocol.Build.Agree.{IsBuilt, IsTimeout, parse_request-build_request}
use elio.Rpc.Protocol.RequestIds.{drawn, next-distinct}

-- A method number, a name and a payload.
abbrev call : List Field
call = word 4 300 ∷ string (0x61 ∷ 0x62 ∷ []) ∷ blob (1 ∷ 2 ∷ 3 ∷ []) ∷ []

call-IsField : All IsField call
unfolding IsField Fits
call-IsField = (refl, (omega arith, (omega arith, tt)))

call_bytes :
    all_encoded call ≡ 44 ∷ 1 ∷ 0 ∷ 0 ∷ 2 ∷ 0 ∷ 0 ∷ 0 ∷ 0x61 ∷ 0x62 ∷ 3 ∷ 0 ∷ 0 ∷ 0 ∷ 1 ∷ 2 ∷ 3 ∷ []
unfolding all_encoded encoded write_le
call_bytes = refl

call-small : length (all_encoded call) < 2 ^ 64
call-small = rw call_bytes (omega arith)

read_fields-write_fields_example :
    (write_fields call [] ≡ inr (all_encoded call))
    × (v : BufferView) × (read_fields (kinds_of call) (view (all_encoded call)) ≡ inr (call, v))
    × IsAt v []
read_fields-write_fields_example = read_fields-write_fields call call-IsField call-small

abbrev named : BufferView
named = record { data_ = 2 ∷ 0 ∷ 0 ∷ 0 ∷ 0x61 ∷ 0x62 ∷ 9 ∷ []; pos = 0 }

named-IsValid : IsValid named
unfolding IsValid
named-IsValid = omega arith

abbrev name : Span × BufferView
name = (record { offset = 4; size = 2 }, record named { pos = 6 })

named-read : read_string named ≡ inr name
unfolding read_string read read_le read_counted
named-read = refl

read_string-IsSpanOf_example : IsSpanOf named name
read_string-IsSpanOf_example = read_string-IsSpanOf named name named-IsValid (inl named-read)

abbrev second : BufferView
second = record named { pos = 1 }

second-IsValid : IsValid second
unfolding IsValid
second-IsValid = omega arith

-- A huge count takes the view back to its first byte.
skip_lem_example : skip (2 ^ 64 - 1) second ≡ (
    if leb (2 ^ 64 - 1) (length second.data_ - 1)
    then inr (record second { pos = 1 + (2 ^ 64 - 1) })
    else if ltb (1 + (2 ^ 64 - 1)) (2 ^ 64)
    then inl skip_past_end
    else inr (record second { pos = 1 + (2 ^ 64 - 1) - 2 ^ 64 }))
skip_lem_example = skip_lem (2 ^ 64 - 1) second (omega arith) second-IsValid

abbrev timed_request : FrameHeader
timed_request = record {
  magic = 0x454C494F;
  request_id = 5;
  kind = 0;
  flags = 1;
  method_id = 300;
  payload_length = 10;
  version = 1;
}

timed_request-IsHeader : IsHeader timed_request
timed_request-IsHeader = record {
  magic_fits = omega arith;
  request_id_fits = omega arith;
  kind_fits = omega arith;
  flags_fits = omega arith;
  method_id_fits = omega arith;
  payload_length_fits = omega arith;
  version_fits = omega arith;
}

serialized_small : length (serialize timed_request (7 ∷ []) ++ (1 ∷ 2 ∷ [])) < 2 ^ 64
unfolding serialize write write_le
serialized_small = omega arith

deserialize-serialize_example :
    (v : BufferView) × (deserialize
        (record { data_ = serialize timed_request (7 ∷ []) ++ (1 ∷ 2 ∷ []); pos = 1 })
      ≡ inr (timed_request, v))
    × IsAt v (1 ∷ 2 ∷ [])
deserialize-serialize_example =
    deserialize-serialize timed_request (7 ∷ []) (1 ∷ 2 ∷ []) timed_request-IsHeader
      serialized_small

is_valid_iff_example : (is_valid timed_request ≡ true) ↔ (
    (timed_request.magic ≡ 0x454C494F)
    × (timed_request.version ≡ 1)
    × (timed_request.payload_length ≤ 16777216)
    × IsShaped timed_request)
is_valid_iff_example = is_valid_iff timed_request (omega arith)

next-distinct_example :
    (0 < (next 6).0) × ((next 6).0 < 2 ^ 32) × ((next (drawn 3 6)).0 ≢ (next 6).0)
next-distinct_example = next-distinct 6 3 (omega arith) (omega arith) (omega arith)

abbrev built_request : FrameHeader × List ℕ
built_request = (
  frame_of 5 0 3 300 21,
  44 ∷ 1 ∷ 0 ∷ 0 ∷ 44 ∷ 1 ∷ 0 ∷ 0 ∷ 2 ∷ 0 ∷ 0 ∷ 0 ∷ 0x61 ∷ 0x62 ∷ 3 ∷ 0 ∷ 0 ∷ 0 ∷ 1 ∷ 2 ∷ 3 ∷ [],
)

build_request_run : build_request 5 300 call (some 300) true ≡ inr built_request
unfolding build_request with_written with_size validate_payload_size timeout_flag timeout_bytes
    checksum_flag write_fields write_field write_string write_blob write_bytes write write_le
build_request_run = refl

small-IsTimeout : IsTimeout (some 300)
unfolding IsTimeout
small-IsTimeout = omega arith

parse_request-build_request_example :
    IsBuilt built_request
    × (parse_request (kinds_of call) (view built_request.1) (built_request.0).flags
        ≡ inr (some 300, call))
parse_request-build_request_example =
    parse_request-build_request 5 300 call (some 300) true built_request call-IsField
      small-IsTimeout build_request_run

-- The name's length exceeds the buffer: the call throws behind the length, and the next one reads on.
abbrev cut_short : BufferView
cut_short = record { data_ = 9 ∷ 0 ∷ 0 ∷ 0 ∷ 0x61 ∷ 0x62 ∷ []; pos = 0 }

throws_behind_length : run (reads_string ∷ reads 1 ∷ []) cut_short ≡ record cut_short { pos = 5 }
unfolding run after read_string read read_le read_counted
throws_behind_length = refl

abbrev calls : List Call
calls = reads_string ∷ seeks 4 ∷ skips 1 ∷ reads 2 ∷ reads 4 ∷ []

calls-IsSized : All IsSized calls
unfolding IsSized
calls-IsSized = (tt, (tt, (omega arith, (omega arith, (omega arith, tt)))))

run-IsValid_example : IsValid (run calls named) × ((run calls named).data_ ≡ named.data_)
run-IsValid_example = run-IsValid calls named calls-IsSized named-IsValid
