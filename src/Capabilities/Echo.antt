-- ===== src/Capabilities/Echo.antt =====
-- src/rif_runtime/capabilities/echo.py
use mandare.Prelude.{ℕ, ok}
use mandare.Values.{text, dict, end, field}
use mandare.Capabilities.{Capability, succeeded}

-- `EchoCapability`, at the time of the result
abbrev pub echo : ℕ → Capability
echo now = record {
  name = "echo";
  execute = λ m. ok (record {
    status = succeeded;
    message = "Echo capability executed.";
    output =
        field "actor" (text m.actor)
          (field "action" (text m.action) (field "parameters" (dict m.parameters) end));
    metadata = end;
    completed_at = now;
  });
}
