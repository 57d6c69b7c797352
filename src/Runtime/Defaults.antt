-- ===== src/Runtime/Defaults.antt =====
-- src/runtime/defaults.h.
use rdp_ext.Common.Text.{Text, text}

unfoldable pub default_channel_name : Text
default_channel_name = text "RDPEXT"
