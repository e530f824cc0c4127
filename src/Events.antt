-- ===== src/Events.antt =====
-- src/events/mod.rs: event envelopes and their topics.
use opencord_server.Base.{ℕ, if◌then◌else◌, ◌++◌, Option, none, some, Text, text, starts_with}

pub data KafkaTopic : Type 0 where
  chat_events realtime_events notification_jobs webhook_jobs calendar_jobs search_jobs : KafkaTopic
  export_jobs retention_jobs media_jobs usage_jobs dead_letter_topic : KafkaTopic

unfoldable pub topic_str : KafkaTopic → Text
topic_str chat_events = text "opencord.events.chat.v1"
topic_str realtime_events = text "opencord.events.realtime.v1"
topic_str notification_jobs = text "opencord.jobs.notifications.v1"
topic_str webhook_jobs = text "opencord.jobs.webhooks.v1"
topic_str calendar_jobs = text "opencord.jobs.calendar.v1"
topic_str search_jobs = text "opencord.jobs.search.v1"
topic_str export_jobs = text "opencord.jobs.exports.v1"
topic_str retention_jobs = text "opencord.jobs.retention.v1"
topic_str media_jobs = text "opencord.jobs.media.v1"
topic_str usage_jobs = text "opencord.jobs.usage.v1"
topic_str dead_letter_topic = text "opencord.dlq.v1"

-- The payload is a JSON value that no code here looks into; `occurred_at` is a number.
module _ (Value : Type 0) where
  pub record EventEnvelope : Type 0 where
    pub event_id : Text
    pub topic : Text
    pub event_type : Text
    pub schema_version : ℕ
    pub organization_id : Text
    pub partition_key : Text
    pub occurred_at : ℕ
    pub traceparent : Option Text
    pub idempotency_key : Text
    pub payload : Value

unfoldable pub topic_for_event_type : Text → KafkaTopic
topic_for_event_type event_type =
    if starts_with event_type (text "message.") then chat_events else realtime_events

-- `id` and `now` are the fresh UUID, printed, and the clock.
unfoldable pub for_tenant :
    {Value : Type 0} → Text → ℕ → Text → Text → Text → Text → Value → EventEnvelope Value
unfolding topic_for_event_type topic_str
for_tenant id now event_type organization_id partition_key idempotency_subject payload = record {
  event_id = text "evt_" ++ id;
  topic = topic_str (topic_for_event_type event_type);
  event_type = event_type;
  schema_version = 1;
  organization_id = organization_id;
  partition_key = partition_key;
  occurred_at = now;
  traceparent = none;
  idempotency_key = event_type ++ (text ":" ++ idempotency_subject);
  payload = payload;
}

-- `traceparent` is the one of the trace context.
unfoldable pub with_trace_context :
    {Value : Type 0} → Text → EventEnvelope Value → EventEnvelope Value
with_trace_context traceparent envelope = record envelope { traceparent = some traceparent }
