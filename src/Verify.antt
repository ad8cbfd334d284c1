-- ===== src/Verify.antt =====
-- crates/garret-pusher/src/verify.rs: the check of a NAR on its way to S3. zstd's streaming decoder is
-- a record of its calls, SHA-256 and zstd's bound on a compressed size are parameters.
pub mod Nar
pub mod Inline
pub mod Turns
pub mod Polls
pub mod Schedules
pub mod Fed
pub mod Decoding
pub mod Loop
pub mod Waiting
pub mod Ends
pub mod Stored
mod Tests
use garret.Common.{
  ℕ, zero, suc, ◌+◌, ◌-◌, ◌*◌, ◌^◌, Bool, true, false, not, ◌&&◌, ◌||◌, Option, none, some, List,
  [], ◌∷◌, ◌++◌, if◌then◌else◌, Text, text_eq, length, drop, ltb, ◌==◌, min,
}
use garret.Common.Result.{Result, ok, err, ◌>>=◌, map_err}
use garret.StorePath.Base32.{sha256_nix32}
use garret.Storage.Stream.{Item, BodyError, broken}

-- What one call of the decoder did with the rest of a chunk: how much it took, what it gave out, its
-- hint of what comes, and the decoder after it.
pub record DecoderCall (D : Type 0) : Type 0 where
  pub consumed : ℕ
  pub output : Text
  pub hint : ℕ
  pub decoder : D

pub record Zstd (D : Type 0) : Type 0 where
  pub start : D
  pub run : D → Text → Option (DecoderCall D)
  pub compress_bound : ℕ → ℕ
  pub sha256 : Text → Text

abbrev pub scratch : ℕ
scratch = 128 * 1024

abbrev pub compressed_slack : ℕ
compressed_slack = 64 * 1024

abbrev pub offload_depth : ℕ
offload_depth = 8

-- `usize`'s, of 64 bits.
abbrev pub usize_max : ℕ
usize_max = 2 ^ 64 - 1

abbrev pub saturating_add : ℕ → ℕ → ℕ
saturating_add a b = min (a + b) usize_max

pub data Reason : Type 0 where
  over_bound not_zstd over_size mid_frame wrong_size wrong_hash : Reason

pub record Checker (D : Type 0) : Type 0 where
  pub decoder : D
  pub hashed : Text
  pub nar_size : ℕ
  pub compressed : ℕ
  pub max_compressed : ℕ
  pub frame_done : Bool
  pub claimed_hash : Text
  pub claimed_size : ℕ

-- The verdict of a check, and `out_of_fuel` where the model's fuel has run out.
pub data Fault : Type 0 where
  refuse : Reason → Fault
  out_of_fuel : Fault

abbrev pub Checked : Type 0
Checked = Result (Unit {0}) Fault

module _ {D : Type 0} (zstd : Zstd D) where
  abbrev pub max_compressed_len : ℕ → ℕ
  max_compressed_len claimed_size =
      saturating_add (zstd.compress_bound claimed_size) compressed_slack

  abbrev pub new_checker : Text → ℕ → Checker D
  new_checker claimed_hash claimed_size = record {
    decoder = zstd.start;
    hashed = [];
    nar_size = 0;
    compressed = 0;
    max_compressed = max_compressed_len claimed_size;
    frame_done = false;
    claimed_hash = claimed_hash;
    claimed_size = claimed_size;
  }

  -- The checker after a call, on a chunk of which `src` was left.
  abbrev pub stepped : Checker D → Text → DecoderCall D → Checker D
  stepped c src call = record c {
    decoder = call.decoder;
    hashed = c.hashed ++ call.output;
    nar_size = c.nar_size + length call.output;
    frame_done =
        if ltb 0 call.consumed || ltb 0 (length call.output) then call.hint == 0 else c.frame_done;
  }

  -- The chunk is consumed and the decoder had room to spare.
  abbrev pub is_spent : Text → DecoderCall D → Bool
  is_spent src call = (call.consumed == length src) && ltb (length call.output) scratch

  -- After a call, `rest` is the loop's next turn.
  abbrev pub called :
      Checker D → Text → DecoderCall D → Result (Checker D) Fault → Result (Checker D) Fault
  called c src call rest =
      if ltb c.claimed_size (c.nar_size + length call.output)
      then err (refuse over_size)
      else if is_spent src call
      then ok (stepped c src call)
      else rest

  -- The `loop` of `feed`.
  unfoldable pub feed_loop : ℕ → Checker D → Text → Result (Checker D) Fault
  feed_loop zero c src = err out_of_fuel
  feed_loop (suc fuel) c src = elim (zstd.run c.decoder src) [
    | none ↦ err (refuse not_zstd)
    | some call ↦ called c src call (feed_loop fuel (stepped c src call) (drop call.consumed src))
  ]

  -- `feed`. Each turn but the last takes a byte or gives one out; see Verify/Loop.
  unfoldable pub feed : Checker D → Text → Result (Checker D) Fault
  unfolding feed_loop
  feed c chunk =
      let counted = record c { compressed = saturating_add c.compressed (length chunk) } in
      if ltb c.max_compressed counted.compressed
      then err (refuse over_bound)
      else feed_loop (suc (length chunk + c.claimed_size)) counted chunk

  abbrev pub is_hash : Option Text → Text → Bool
  is_hash none claimed = false
  is_hash (some hash) claimed = text_eq hash claimed

  unfoldable pub finish_check : Checker D → Checked
  unfolding sha256_nix32
  finish_check c =
      if not c.frame_done
      then err (refuse mid_frame)
      else if not (c.nar_size == c.claimed_size)
      then err (refuse wrong_size)
      else if is_hash (sha256_nix32 (zstd.sha256 c.hashed)) c.claimed_hash
      then ok tt
      else err (refuse wrong_hash)
