-- ===== src/ConfigLoader/Templates.antt =====
-- `generateTemplate`.
use aeron_archive_replay.Base.{
  Bool, Option, none, some, List, [], ◌∷◌, ◌++◌, if◌then◌else◌, Text, text_of, same_text,
}
use aeron_archive_replay.ConfigLoader.Lines.{lines}

abbrev pub local_part : List Text
local_part =
    text_of "[aeron]"
    ∷ text_of "dir = /dev/shm/aeron"
    ∷ []
    ∷ text_of "[archive]"
    ∷ text_of "control_request_channel = aeron:udp?endpoint=localhost:8010"
    ∷ text_of "control_response_channel = aeron:udp?endpoint=localhost:0"
    ∷ []
    ∷ text_of "[publication]"
    ∷ text_of "channel = aeron:udp?endpoint=localhost:40456"
    ∷ text_of "stream_id = 10"
    ∷ []
    ∷ text_of "[subscription]"
    ∷ text_of "channel = aeron:udp?endpoint=localhost:40456"
    ∷ text_of "stream_id = 10"
    ∷ []
    ∷ text_of "[replay]"
    ∷ text_of "channel = aeron:udp?endpoint=localhost:40457"
    ∷ text_of "stream_id = 20"
    ∷ []
    ∷ []

abbrev pub distributed_part : List Text
distributed_part =
    text_of "# Distributed setup with multicast"
    ∷ text_of "# Publisher server: 192.168.1.10"
    ∷ text_of "# Subscriber servers: 192.168.1.20, 192.168.1.21, ..."
    ∷ []
    ∷ text_of "[aeron]"
    ∷ text_of "dir = /dev/shm/aeron"
    ∷ []
    ∷ text_of "[archive]"
    ∷ text_of "# Publisher server IP"
    ∷ text_of "control_request_channel = aeron:udp?endpoint=192.168.1.10:8010"
    ∷ text_of "control_response_channel = aeron:udp?endpoint=localhost:0"
    ∷ []
    ∷ text_of "[publication]"
    ∷ text_of "# Multicast address"
    ∷ text_of "channel = aeron:udp?endpoint=224.0.1.1:40456|interface=0.0.0.0"
    ∷ text_of "stream_id = 10"
    ∷ []
    ∷ text_of "[subscription]"
    ∷ text_of "channel = aeron:udp?endpoint=224.0.1.1:40456|interface=0.0.0.0"
    ∷ text_of "stream_id = 10"
    ∷ []
    ∷ text_of "[replay]"
    ∷ text_of "channel = aeron:udp?endpoint=localhost:40457"
    ∷ text_of "stream_id = 20"
    ∷ []
    ∷ []

abbrev pub production_part : List Text
production_part =
    text_of "# Production configuration"
    ∷ []
    ∷ text_of "[aeron]"
    ∷ text_of "dir = /dev/shm/aeron"
    ∷ []
    ∷ text_of "[archive]"
    ∷ text_of "control_request_channel = aeron:udp?endpoint=PUBLISHER_IP:8010"
    ∷ text_of "control_response_channel = aeron:udp?endpoint=localhost:0"
    ∷ []
    ∷ text_of "[publication]"
    ∷ text_of "channel = aeron:udp?endpoint=MULTICAST_IP:40456|interface=0.0.0.0"
    ∷ text_of "stream_id = 10"
    ∷ []
    ∷ text_of "[subscription]"
    ∷ text_of "channel = aeron:udp?endpoint=MULTICAST_IP:40456|interface=0.0.0.0"
    ∷ text_of "stream_id = 10"
    ∷ []
    ∷ text_of "[replay]"
    ∷ text_of "channel = aeron:udp?endpoint=localhost:40457"
    ∷ text_of "stream_id = 20"
    ∷ []
    ∷ []

abbrev notes : List Text
notes =
    text_of "#"
    ∷ text_of "# Lines starting with # or ; are comments"
    ∷ text_of "# Format: key = value"
    ∷ []
    ∷ []

abbrev pub heading : Text → List Text
heading kind =
    text_of "# Aeron Configuration File" ∷ (text_of "# Generated template: " ++ kind) ∷ notes

abbrev pub timeouts_part : List Text
timeouts_part =
    text_of "[timeouts]"
    ∷ text_of "idle_sleep_ms = 1"
    ∷ text_of "message_timeout_ns = 10000000000"
    ∷ []

unfoldable pub template_part : Text → List Text
template_part kind =
    if same_text kind (text_of "local")
    then local_part
    else if same_text kind (text_of "distributed")
    then distributed_part
    else production_part

-- The file's new contents, or `none` where it cannot be created.
unfoldable pub generate_template : Bool → Text → Option Text
unfolding lines template_part
generate_template creates kind =
    if creates then some (lines (heading kind ++ (template_part kind ++ timeouts_part))) else none
