-- ===== src/Tests.antt =====
-- Runs of the definitions on small inputs taken from the repository's own tests, and the theorems
-- applied at concrete inputs.
mod UrlRuns
mod UtilsRuns
mod RobotsRuns
mod GeminiRuns
mod CrawlerRuns
mod SearchRuns
mod PolicyRuns
mod PageRuns
mod RankingRuns
mod MergeRuns
mod SupplyRuns
mod ServiceRuns
mod ScoreRuns
mod ServerRuns
mod FoundRuns
mod ControlRuns
