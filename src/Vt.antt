-- ===== src/Vt.antt =====
-- libcorehost/vt_parser.hpp: the state machine that turns code points into VT messages.
pub mod Message
pub mod Sgr
pub mod Osc
pub mod Csi
pub mod Parser
