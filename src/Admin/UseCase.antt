-- ===== src/Admin/UseCase.antt =====
-- internal/usecase/admin_stream.go: the methods of the use case, which pass their arguments on; the one
-- for pending messages puts defaults in first.
use watch_tower.Common.{ℕ, List, if◌then◌else◌, Text, codes, Op, is_empty}
use watch_tower.Common.Int.{ℤ, pos, is_nonpos}
use watch_tower.Domain.{LogEvent}
use watch_tower.Domain.Streams.{
  GroupInfo, ConsumerInfo, PendingSummary, PendingDetail, StreamAdminRepository,
}

pub record AdminStreamUseCase (S : Type 0) : Type 0 where
  pub repo : StreamAdminRepository S

module _ {S : Type 0} (uc : AdminStreamUseCase S) where
  abbrev pub get_group_info : Text → Op S (List GroupInfo)
  get_group_info stream = uc.repo.get_group_info stream

  abbrev pub get_consumer_info : Text → Text → Op S (List (ConsumerInfo ℤ))
  get_consumer_info stream group = uc.repo.get_consumer_info stream group

  abbrev pub get_pending_summary : Text → Text → Op S PendingSummary
  get_pending_summary stream group = uc.repo.get_pending_summary stream group

  unfoldable pub get_pending_messages : Text → Text → Text → Text → ℤ → Op S (List PendingDetail)
  get_pending_messages stream group consumer start_id count =
      let start = if is_empty start_id then codes "-" else start_id in
      let limit = if is_nonpos count then pos 100 else count in
      uc.repo.get_pending_messages stream group consumer start limit

  abbrev pub claim_messages : Text → Text → Text → ℤ → List Text → Op S (List LogEvent)
  claim_messages stream group consumer min_idle ids =
      uc.repo.claim_messages stream group consumer min_idle ids

  abbrev pub acknowledge_messages : Text → Text → List Text → Op S ℕ
  acknowledge_messages stream group ids = uc.repo.acknowledge_messages stream group ids

  abbrev pub trim_stream : Text → ℤ → Op S ℕ
  trim_stream stream max_len = uc.repo.trim_stream stream max_len
