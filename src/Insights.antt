-- ===== src/Insights.antt =====
-- modules/campaign-reports/enums/insights-column.enum.ts and interfaces/meta-campaign.interface.ts:
-- the rows of insights that Meta answers with, and the columns that a report may have.
use trafego_flow.Common.{Option, List, String}

pub data MetaInsightsColumn : Type 0 where
  campaign_id campaign_name adset_name ad_name thumbnail_url : MetaInsightsColumn
  instagram_permalink_url date_start date_stop impressions clicks reach : MetaInsightsColumn
  frequency unique_clicks spend cpm cpc cost_per_unique_click ctr purchase_roas : MetaInsightsColumn
  link_clicks landing_page_views leads purchases video_plays video_p25 video_p50 :
      MetaInsightsColumn
  video_p75 video_p100 messaging_conversations_started age gender country region :
      MetaInsightsColumn
  publisher_platform device_platform : MetaInsightsColumn

pub data ColumnType : Type 0 where
  text count monetary percentage decimal date : ColumnType

pub record ColumnMeta : Type 0 where
  pub label : String
  pub column_type : ColumnType

-- `COLUMN_META`
abbrev pub column_meta : MetaInsightsColumn → ColumnMeta
column_meta campaign_id = record { label = "ID da Campanha"; column_type = text }
column_meta campaign_name = record { label = "Campanha"; column_type = text }
column_meta adset_name = record { label = "Conjunto de Anúncios"; column_type = text }
column_meta ad_name = record { label = "Anúncio"; column_type = text }
column_meta thumbnail_url = record { label = "Thumbnail"; column_type = text }
column_meta instagram_permalink_url = record {
  label = "Link do Post (Instagram)";
  column_type = text;
}
column_meta date_start = record { label = "Início"; column_type = date }
column_meta date_stop = record { label = "Fim"; column_type = date }
column_meta impressions = record { label = "Impressões"; column_type = count }
column_meta clicks = record { label = "Cliques"; column_type = count }
column_meta reach = record { label = "Alcance"; column_type = count }
column_meta frequency = record { label = "Frequência"; column_type = decimal }
column_meta unique_clicks = record { label = "Cliques Únicos"; column_type = count }
column_meta spend = record { label = "Investimento"; column_type = monetary }
column_meta cpm = record { label = "CPM"; column_type = monetary }
column_meta cpc = record { label = "CPC"; column_type = monetary }
column_meta cost_per_unique_click = record { label = "Custo/Clique Único"; column_type = monetary }
column_meta ctr = record { label = "CTR"; column_type = percentage }
column_meta purchase_roas = record { label = "ROAS"; column_type = decimal }
column_meta link_clicks = record { label = "Cliques no Link"; column_type = count }
column_meta landing_page_views = record { label = "Visualiz. de Página"; column_type = count }
column_meta leads = record { label = "Leads"; column_type = count }
column_meta purchases = record { label = "Compras"; column_type = count }
column_meta video_plays = record { label = "Reproduções de Vídeo"; column_type = count }
column_meta video_p25 = record { label = "Vídeo 25%"; column_type = count }
column_meta video_p50 = record { label = "Vídeo 50%"; column_type = count }
column_meta video_p75 = record { label = "Vídeo 75%"; column_type = count }
column_meta video_p100 = record { label = "Vídeo 100%"; column_type = count }
column_meta messaging_conversations_started = record {
  label = "Conversas Iniciadas";
  column_type = count;
}
column_meta age = record { label = "Faixa Etária"; column_type = text }
column_meta gender = record { label = "Gênero"; column_type = text }
column_meta country = record { label = "País"; column_type = text }
column_meta region = record { label = "Região"; column_type = text }
column_meta publisher_platform = record { label = "Plataforma"; column_type = text }
column_meta device_platform = record { label = "Dispositivo"; column_type = text }

pub record MetaAction : Type 0 where
  pub action_type : String
  pub value : String

pub record MetaInsights : Type 0 where
  pub campaign_id : Option String
  pub campaign_name : Option String
  pub adset_id : Option String
  pub adset_name : Option String
  pub ad_id : Option String
  pub ad_name : Option String
  pub impressions : String
  pub clicks : String
  pub spend : String
  pub reach : String
  pub cpm : String
  pub cpc : String
  pub ctr : String
  pub actions : Option (List MetaAction)
  pub cost_per_action_type : Option (List MetaAction)
  pub date_start : String
  pub date_stop : String
  pub frequency : Option String
  pub unique_clicks : Option String
  pub cost_per_unique_click : Option String
  pub purchase_roas : Option (List MetaAction)
  pub video_play_actions : Option (List MetaAction)
  pub video_p25_watched_actions : Option (List MetaAction)
  pub video_p50_watched_actions : Option (List MetaAction)
  pub video_p75_watched_actions : Option (List MetaAction)
  pub video_p100_watched_actions : Option (List MetaAction)
  pub age : Option String
  pub gender : Option String
  pub country : Option String
  pub region : Option String
  pub publisher_platform : Option String
  pub device_platform : Option String
  pub thumbnail_url : Option String
  pub image_url : Option String
  pub instagram_permalink_url : Option String
