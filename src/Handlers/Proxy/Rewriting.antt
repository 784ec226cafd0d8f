-- ===== src/Handlers/Proxy/Rewriting.antt =====
-- The request that ProxyHandler sends on, from the one that came in: `ModifyRequestForProxy` of
-- handlers/proxy_handler.cc.
use caviar_hacker_grid.Base.{◌++◌}
use caviar_hacker_grid.Base.Text.{Bytes, codes}
use caviar_hacker_grid.Handlers.Proxy.{Proxy}
use caviar_hacker_grid.Http.Request.{Request}

abbrev pub host_and_port : Proxy → Bytes
host_and_port p = p.host_path ++ (codes ":" ++ p.port_path)
