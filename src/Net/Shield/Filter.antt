-- ===== src/Net/Shield/Filter.antt =====
-- What passes the shield.
use primus_project.Base.{◌≡◌, false, Option, some}
use primus_project.Base.Outcome.{Result, ok, err}
use primus_project.Machine.Word.{Bytes}
use primus_project.Machine.Float.{lt_f32}
use primus_project.Types.Crypto.{Hashes}
use primus_project.Types.Reaction.{SignedReaction}
use primus_project.Types.Reaction.Validation.{IsWellFormed}
use primus_project.Net.Shield.{ShieldError}

module _ (h : Hashes) (decode : Bytes → Option SignedReaction) where
  -- What a frame that passes is.
  abbrev pub IsAdmissible : Bytes → SignedReaction → Type 0
  IsAdmissible raw rx = (decode raw ≡ some rx) × IsWellFormed h rx × (lt_f32 rx.energy 0 ≡ false)

  abbrev AdmissibleIfOk : Bytes → Result ShieldError SignedReaction → Type 0
  AdmissibleIfOk raw (ok rx) = IsAdmissible raw rx
  AdmissibleIfOk raw (err _) = Unit
