-- ===== src/Server/Service/Interleaved.antt =====
-- internal/server/service.go: what open streams have told of stays accounted for, whatever calls of the
-- store interleave.
use spectre.Server.Storage.Memory.{Memory}
use spectre.Server.Service.Steps.{Server}
