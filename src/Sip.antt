-- ===== src/Sip.antt =====
-- Asterisk/11/19/reqresp_parser.c: the comparison of URIs, and the options of SIP.
pub mod Text
pub mod Uri
pub mod Supported
