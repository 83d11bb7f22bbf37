-- ===== src/Campaign/Run/Started.antt =====
-- A campaign that is created or resumed is run to its end.
use csharp_llm_benchmark.Prelude.Numbers.{Numbers}
use csharp_llm_benchmark.Campaign.Pairs.{Campaign}
