-- ===== src/Run/Sample.antt =====
-- packages/domain/src/run.ts: timestamps for the concrete runs of the tests.
use Prim.Native.Char.{code}
use lineageguard.Base.{ℕ, ◌+◌, ◌-◌, ◌*◌, String, Bool, true, false, ◌&&◌, if◌then◌else◌, leb}
use lineageguard.Run.Events.{IsoTime}

-- Decimal numbers of milliseconds stand for the timestamps.
unfoldable pub read : ℕ → String → ℕ
read acc String.[] = acc
read acc (String.◌∷◌ c s) = read (acc * 10 + (code c - b'0')) s

unfoldable pub digits : String → Bool
digits String.[] = true
digits (String.◌∷◌ c s) = if leb b'0' (code c) && leb (code c) b'9' then digits s else false

abbrev pub ticks : IsoTime
unfolding read digits
ticks = record { is_datetime = digits; is_date = digits; millis = read 0 }
