-- ===== src/SipProxyController/Table/Cancel.antt =====
-- A CANCEL for a request that is being proxied.
use drachtio_server.Common.{◌≡◌, true, false, ◌∷◌, ◌++◌}
use drachtio_server.SipProxyController.{response_generated}
use drachtio_server.SipProxyController.Server.{generate_response}
use drachtio_server.SipProxyController.Core.{Setting, ProxyCore}
use drachtio_server.SipProxyController.Core.Success.{cancels, AreCut}

-- What has been sent when the clients have been told, first the two responses and then the CANCELs,
-- and what has become of the clients.
abbrev pub Answered : Setting → ProxyCore → ProxyCore → Type 0
Answered s core core' =
    (core'.sent
      ≡ (core.sent ++ response_generated 200 ∷ generate_response 487 core.server)
        ++ cancels s.sends_cancel core.clients)
    × (core'.searching ≡ false)
    × (core'.canceled ≡ true)
    × AreCut s.sends_cancel core.clients core'.clients
