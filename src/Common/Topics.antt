-- ===== src/Common/Topics.antt =====
-- src/common/topics.py: the names of the topics.
use Prim.Native.String.{◌++◌}
use stream_pipeline.Prelude.{String, List, [], ◌∷◌}

abbrev pub rides_events : String
rides_events = "rides.events"

abbrev pub drivers_locations : String
drivers_locations = "drivers.locations"

abbrev pub payments_transactions : String
payments_transactions = "payments.transactions"

abbrev pub rides_sessions : String
rides_sessions = "rides.sessions"

abbrev pub late_events : String
late_events = "late.events"

abbrev pub rides_events_clean : String
rides_events_clean = "rides.events.clean"

abbrev pub source_topics : List String
source_topics = rides_events ∷ drivers_locations ∷ payments_transactions ∷ []

unfoldable pub dlq_topic : String → String
dlq_topic topic = topic ++ ".dlq"
