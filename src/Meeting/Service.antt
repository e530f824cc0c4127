-- ===== src/Meeting/Service.antt =====
-- src/domain/meeting.rs: `MeetingService`, over any store.
use opencord_server.Base.{List, Text, Uuid, ok_or}
use opencord_server.Base.Action.{Action, ◌>>=◌, ◌>>◌, lift, pure}
use opencord_server.Meeting.{MeetingBundle, MeetingPatch, MeetingError, not_found, Crates}
use opencord_server.Meeting.Draft.{NewMeeting, new_bundle, patched, cancelled}
use opencord_server.Meeting.Store.{MeetingStore}

module _ (crates : Crates) (store : MeetingStore) where
  open store use {State}

  unfoldable pub create : Uuid → NewMeeting → Action State MeetingError MeetingBundle
  create id new = do
    bundle ← lift (new_bundle crates id new)
    store.create_meeting bundle
    pure bundle

  unfoldable pub list_for_organization : Uuid → Action State MeetingError (List MeetingBundle)
  list_for_organization organization_id = store.list_for_organization organization_id

  unfoldable pub get : Uuid → Action State MeetingError MeetingBundle
  get meeting_id = do found ← store.get_meeting meeting_id; lift (ok_or not_found found)

  unfoldable pub get_by_join_slug : Text → Action State MeetingError MeetingBundle
  get_by_join_slug join_slug = do
    found ← store.get_meeting_by_join_slug join_slug
    lift (ok_or not_found found)

  unfoldable pub update : MeetingBundle → MeetingPatch → Action State MeetingError MeetingBundle
  update bundle patch = do
    meeting ← lift (patched crates bundle.meeting patch)
    store.update_meeting meeting

  unfoldable pub cancel : crates.DateTime → MeetingBundle → Action State MeetingError MeetingBundle
  cancel now bundle = store.update_meeting (cancelled crates now bundle.meeting)
