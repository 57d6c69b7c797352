-- ===== src/Tests/Protocol.antt =====
-- src/core/protocol at concrete inputs.
use rdp_ext.Common.{◌≡◌, refl}
use rdp_ext.Common.Text.{text, hex4}
use rdp_ext.Protocol.Message.{Message, error}
use rdp_ext.Protocol.Factory.{make_wrong_protocol_version_error}

abbrev a_ping : Message
a_ping = Message.ping (record { id = 0x12345678 })

wrong_version_text :
    make_wrong_protocol_version_error 0x0103
    ≡ error (record {
      code = 2;
      message = text "Unsupported protocol version, required version 0x0103";
    })
unfolding make_wrong_protocol_version_error text hex4
wrong_version_text = refl
