-- ===== src/Upload/Tests.antt =====
-- crates/garret-pusher/src/main.rs and crates/garret-server/src/narinfo.rs: one upload.
use garret.Common.{
  some-injective, ◌≡◌, refl, subst, true, false, Option, none, some, List, [], ◌∷◌, ◌++◌, Text,
  codes, All, arith, length, text_eq,
}
use garret.Common.Result.{ok}
use garret.InFlight.{claim, take, is_quiescing}
use garret.InFlight.Claims.{lookup}
use garret.Db.Schema.{Object, empty, find, sort_by, insert_by, refs_without}
use garret.Db.Objects.{exists, insert_object, insert_refs, file_size}
use garret.StorePath.Split.{strip_prefix, split_once}
use garret.StorePath.Names.{
  is_store_hash, is_nix_base32, is_base32_digit, is_name, name_byte, store_basename,
}
use garret.StorePath.Base32.{
  nix_base32_encode, nix_base32_len, groups_below, digit, group, sha256_nix32,
}
use garret.StorePath.Frame.{read_preamble, take_preamble, preamble_end, end_of}
use garret.StorePath.Frame.Exact.{IsByte}
use garret.Narinfo.{normalize_hash, sign}
use garret.Gc.{Shared}
use garret.Upload.{
  Preamble, build_object, accepted, Environment, created, store_upload, record_stored,
  claim_and_store, upload, Answer,
}
use garret.Upload.Store.{NarStore, with_store, put_nar, read_outcome}
use garret.Upload.Verified.{upload-Created}
use garret.Upload.Kept.{Created}
use garret.Storage.Stream.{Item, put_streaming}
use garret.Verify.{Zstd, feed, finish_check}
use garret.Verify.Nar.{verified}
use garret.Upload.Accepts.{IsGenuine, build_object-IsGenuine}
use garret.Upload.Outcome.{Changes, upload-Changes}

abbrev zeros : Text
zeros =
    0 ∷ 0 ∷ 0 ∷ 0 ∷ 0 ∷ 0 ∷ 0 ∷ 0 ∷ 0 ∷ 0 ∷ 0 ∷ 0 ∷ 0 ∷ 0 ∷ 0 ∷ 0 ∷ 0 ∷ 0 ∷ 0 ∷ 0 ∷ 0 ∷ 0 ∷ 0 ∷ 0
    ∷ 0 ∷ 0 ∷ 0 ∷ 0 ∷ 0 ∷ 0 ∷ 0 ∷ 0 ∷ []

-- Every text decodes to the same bytes.
abbrev decode : Text → Option Text
decode text = some zeros

zeros_small : All IsByte zeros
zeros_small = ground arith

decodes_bytes : (text bytes : Text) → decode text ≡ some bytes → All IsByte bytes
decodes_bytes text bytes e = subst (All IsByte) (some-injective e) zeros_small

abbrev hash : Text
hash = codes "0c0a5kd1lrv5mnvk1fsfgkh93lqv7bgm"

abbrev preamble : Preamble
preamble = record {
  store_path = codes "/nix/store/0c0a5kd1lrv5mnvk1fsfgkh93lqv7bgm-hello";
  nar_hash = codes "sha256-AAAA";
  nar_size = 120;
  references = codes "/nix/store/0c0a5kd1lrv5mnvk1fsfgkh93lqv7bgm-hello" ∷ [];
  deriver = none;
  ca = none;
}

abbrev env : Environment
env = record {
  others = λ n s. s;
  unix_now = λ n. 9;
  from_json = λ text. some preamble;
  decode = decode;
  slot_free = λ n. true;
  keys = (λ fp. codes "key:" ++ fp) ∷ [];
  store_dir = codes "/nix/store";
  put = λ key head rest object blobs. record {
    outcome = some accepted;
    result = ok (zeros, 5);
    blobs = key ∷ blobs;
  };
}

abbrev nothing_yet : Shared
nothing_yet = record {
  db = empty;
  in_flight = record { claims = []; uploads = 0; quiescers = 0 };
  blobs = [];
  waits = 0;
}

abbrev body : List Item
body = ok (2 ∷ 0 ∷ 0 ∷ 0 ∷ 123 ∷ 125 ∷ []) ∷ []

it_is_created : (upload env nothing_yet hash (codes "me") body).0 ≡ created
unfolding upload claim_and_store is_quiescing is_store_hash is_nix_base32 is_base32_digit exists
    find claim take lookup store_upload record_stored read_preamble take_preamble preamble_end
    end_of build_object store_basename strip_prefix split_once is_name name_byte normalize_hash
    nix_base32_len sha256_nix32 nix_base32_encode groups_below digit group sign insert_object
    insert_refs refs_without file_size sort_by insert_by
it_is_created = refl

abbrev hello : Object
hello = record {
  store_path_hash = hash;
  store_path = codes "/nix/store/0c0a5kd1lrv5mnvk1fsfgkh93lqv7bgm-hello";
  name = codes "hello";
  nar_hash = codes "sha256:0000000000000000000000000000000000000000000000000000";
  nar_size = 120;
  file_hash = [];
  file_size = 0;
  deriver = none;
  ca = none;
  references = codes "0c0a5kd1lrv5mnvk1fsfgkh93lqv7bgm-hello" ∷ [];
  sigs = [];
  pushed_by = some (codes "me");
}

build_object-IsGenuine_example : IsGenuine (codes "/nix/store") hash hello
unfolding build_object store_basename strip_prefix split_once is_store_hash is_nix_base32
    is_base32_digit is_name name_byte normalize_hash nix_base32_len sha256_nix32 nix_base32_encode
    groups_below digit group sort_by insert_by
build_object-IsGenuine_example =
    build_object-IsGenuine decode hash preamble (codes "/nix/store") (codes "me") decodes_bytes refl
      refl

upload-Changes_example :
    Changes env empty hash
      (upload env nothing_yet hash (codes "me") body).0
      (upload env nothing_yet hash (codes "me") body).1.db
    × ((upload env nothing_yet hash (codes "me") body).1.in_flight ≡ nothing_yet.in_flight)
upload-Changes_example =
    upload-Changes env (λ n s. refl) nothing_yet hash (codes "me") body decodes_bytes

-- A decoder that passes on what it is given, and a digest that is the same for every text.
abbrev plain_zstd : Zstd (Unit {0})
plain_zstd = record {
  start = tt;
  run = λ d src. some (record { consumed = length src; output = src; hint = 0; decoder = tt });
  compress_bound = λ n. n;
  sha256 = λ nar. zeros;
}

abbrev nar_store : NarStore (Unit {0})
nar_store = record {
  zstd = plain_zstd;
  s3 = record {
    put = λ bytes. true;
    create = true;
    upload_part = λ part. true;
    complete = λ parts. true;
    next_finished = λ joins. 0;
  };
  fuel = 9;
  part_size = 1000000;
  max_parts_in_flight = 2;
  late = false;
}

abbrev small_env : Environment
small_env = record env { from_json = λ text. some (record preamble { nar_size = 2 }) }

abbrev small_body : List Item
small_body = ok (2 ∷ 0 ∷ 0 ∷ 0 ∷ 123 ∷ 125 ∷ 7 ∷ []) ∷ ok (8 ∷ []) ∷ []

abbrev small_upload : Answer × Shared
small_upload = upload (with_store small_env nar_store) nothing_yet hash (codes "me") small_body

upload-Created_example : Created nar_store small_env hash (codes "me") small_body small_upload.1.db
unfolding upload claim_and_store is_quiescing is_store_hash is_nix_base32 is_base32_digit exists
    find claim take lookup store_upload record_stored read_preamble take_preamble preamble_end
    end_of build_object store_basename strip_prefix split_once is_name name_byte normalize_hash
    nix_base32_len sha256_nix32 nix_base32_encode groups_below digit group sign insert_object
    insert_refs refs_without file_size sort_by insert_by put_nar put_streaming verified feed
    finish_check read_outcome text_eq
upload-Created_example =
    upload-Created nar_store small_env nothing_yet small_upload.1 hash (codes "me") small_body
      (omega arith) refl
