-- ===== src/Core/CedarIdent/Laws.antt =====
-- Which segments become identifiers that Cedar accepts.
use forgeguard.Core.Segment.{Segment}
use forgeguard.Core.Segment.Grammar
