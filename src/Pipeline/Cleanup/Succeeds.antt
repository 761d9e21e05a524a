-- ===== src/Pipeline/Cleanup/Succeeds.antt =====
-- `rewriteIPAKnown` and `CleanupIPA` succeed where no call fails.
use ipadecrypt.Pipeline.Archive.{Entry}
use ipadecrypt.Pipeline.Cleanup.{Faults}
use ipadecrypt.Prelude.{◌≡◌, none}

-- No call fails.
pub record NoFaults (faults : Faults) : Type 0 where
  pub open_reader : faults.open_reader ≡ none
  pub reopen_reader : faults.reopen_reader ≡ none
  pub close_reader : faults.close_reader ≡ none
  pub open_tmp : faults.open_tmp ≡ none
  pub copy : (f : Entry) → faults.copy f ≡ none
  pub close_zip : faults.close_zip ≡ none
  pub close_file : faults.close_file ≡ none
  pub rename : faults.rename ≡ none
