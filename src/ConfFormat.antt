-- ===== src/ConfFormat.antt =====
-- crmsh/corosync_config_format.py: the parser, the tree of sections, its queries and its serializer.
pub mod Tokenizer
pub mod Parser
pub mod Dom
pub mod DomLaws
pub mod Builder
pub mod Serializer
pub mod RoundTrip
pub mod Query
