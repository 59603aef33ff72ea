-- ===== src/Core/Action/Tests.antt =====
-- An action of a todo application.
use forgeguard.Base.{◌≡◌, ◌↔◌, codes}
use forgeguard.Base.Result.{ok}
use forgeguard.Core.Action.{Namespace, QualifiedAction, parse_action, action_text}
use forgeguard.Core.Action.RoundTrip.{IsParsed, parse_action-iff-action_text}

abbrev read_list : QualifiedAction
read_list = record {
  namespace = Namespace.user (record { raw = codes "todo" });
  action = record { raw = codes "read" };
  entity = record { raw = codes "list" };
}

parse_action-iff-action_text_example :
    (parse_action (codes "todo:list:read") ≡ ok read_list)
    ↔ ((codes "todo:list:read" ≡ action_text read_list) × IsParsed read_list)
parse_action-iff-action_text_example =
    parse_action-iff-action_text (codes "todo:list:read") read_list
